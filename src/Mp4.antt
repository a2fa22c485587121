-- ===== src/Mp4.antt =====
-- ISO BMFF boxes (src/mp4): headers, and the CMAF chunks of a partial segment.
pub mod Header
pub mod Chunks
pub mod Wire
pub mod Prefix
pub mod Rounds
pub mod Pairs
pub mod Fragments
pub mod Searching
pub mod Draining
pub mod Body
pub mod Large
mod Examples
