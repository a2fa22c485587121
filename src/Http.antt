-- ===== src/Http.antt =====
-- Requests (src/http): when a failed one is tried again.
pub mod Retry
mod Examples
