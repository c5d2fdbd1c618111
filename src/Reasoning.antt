-- ===== src/Reasoning.antt =====
-- backend/internal/reasoning/engine.go: the state machines of hypotheses, signals and investigations,
-- and the plan of an investigation.
pub mod Transitions
pub mod Plan
pub mod Machines
pub mod Priority
