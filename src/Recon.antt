-- ===== src/Recon.antt =====
-- backend/internal/recon: the parts without input and output.
pub mod Dedupe
