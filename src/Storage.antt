-- ===== src/Storage.antt =====
-- backend/internal/storage/memory.go: the in-memory repositories.
pub mod Data
pub mod Targets
pub mod Imports
pub mod Events
pub mod Jobs
pub mod Upserts
pub mod Recon
pub mod Assets
pub mod Evidence
pub mod Reasoning
pub mod Observations
pub mod Plans
pub mod Sightings
pub mod Analysis
