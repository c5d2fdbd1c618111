-- ===== src/Waf.antt =====
-- backend/internal/waf: detection of web application firewalls, and the throttler of an asset.
pub mod Throttler
pub mod Detector
pub mod Bounds
pub mod Breaker
pub mod Confidence
