-- ===== src/Playback.antt =====
-- The playback controller (src/playback_control.rs) and the latency control that it runs
-- (src/clock/latency_control.rs). `State` holds the session's state, `Control` the commands,
-- `Rate` the playback rate and the start of a session, `Clock` the media clock, the buffer
-- estimate and stall detection, `Catchup` the latency control, `Steps` every operation as a
-- transition; the other children hold proofs.
pub mod Latency
pub mod State
pub mod Control
pub mod Rate
pub mod Clock
pub mod Catchup
pub mod Steps
pub mod Effects
pub mod Commands
pub mod Ends
pub mod Delivery
pub mod Stall
mod Examples
pub mod Consistency
