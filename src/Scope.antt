-- ===== src/Scope.antt =====
-- backend/internal/scope/scope.go: which hosts and URLs a target authorizes.
pub mod Platform
pub mod Hosts
pub mod Rules
pub mod Evaluate
pub mod Searches
pub mod Authorized
pub mod Domains
pub mod Import
pub mod Validate
pub mod Eligibility
