-- ===== src/Evidence.antt =====
-- backend/internal/evidence: recording, redaction, comparison and integrity of evidence.
pub mod Data
pub mod Redactor
pub mod Json
pub mod Sanitize
pub mod Dedupe
pub mod Canonical
pub mod Headers
pub mod Diff
pub mod Relevance
pub mod Store
pub mod Engine
