-- ===== src/Abr.antt =====
-- Adaptive bitrate (src/abr): the user's constraints on the quality ladder, and dropped frames.
pub mod Constraints
pub mod DroppedFrames
pub mod Ladder
mod Examples
