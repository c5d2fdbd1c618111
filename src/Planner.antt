-- ===== src/Planner.antt =====
-- backend/internal/planner/planner.go: investigation plans, their checks and their approval.
pub mod Data
pub mod Sanitize
pub mod Validate
pub mod Service
pub mod Safety
pub mod Approval
