-- ===== src/Manifest.antt =====
-- The manifest (src/manifest): segments, timelines, the indexes that list them, and URL templates.
pub mod Types
pub mod Ranges
pub mod Sidx
pub mod Timeline
pub mod Template
pub mod Examples
