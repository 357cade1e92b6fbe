-- ===== src/Sessions/Silence.antt =====
-- parser/fix/session_tracker.py: `SessionHeartbeatTracker`. Times are whole microseconds. The set
-- `_timed_out` is a dictionary whose values are not read.
pub mod Defs
pub mod Once
pub mod Latch
