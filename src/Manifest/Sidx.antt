-- ===== src/Manifest/Sidx.antt =====
-- Segment indexes (src/manifest/sidx).
pub mod Parser
pub mod Wire
pub mod RoundTrip
pub mod Locate
pub mod Expand
pub mod Load
pub mod Layout
pub mod Passing
pub mod Scanned
pub mod Loading
pub mod Scanning
