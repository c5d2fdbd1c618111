-- ===== src/Tests.antt =====
-- The theorems at concrete inputs.
mod Jobs
mod Scope
mod Waf
mod Planner
mod Reasoning
mod Evidence
mod Storage
mod Records
