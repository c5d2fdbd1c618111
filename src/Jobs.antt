-- ===== src/Jobs.antt =====
-- backend/internal/jobs/jobs.go: scan jobs, their in-memory repository, the manager that moves them
-- through their lifecycle, and the audit of that lifecycle from the events.
pub mod Values
pub mod Data
pub mod Repository
pub mod Exec
pub mod Manager
pub mod Audit
pub mod Lifecycle
pub mod Effects
pub mod Trail
pub mod History
pub mod Deactivation
pub mod Progress
