-- ===== src/Drm.antt =====
-- Widevine licenses (src/drm): when a license is renewed, when it expires, and which keys it holds.
pub mod Policy
pub mod Renewal
pub mod License
mod Examples
