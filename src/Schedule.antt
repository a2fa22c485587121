-- ===== src/Schedule.antt =====
-- The scheduler (src/schedule): how it fetches an index.
pub mod IndexFetch
mod Examples
