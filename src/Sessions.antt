-- ===== src/Sessions.antt =====
-- parser/fix/seq_tracker.py and parser/fix/session_tracker.py: what the agent remembers of each FIX
-- session.
mod Keys
pub mod Gaps
pub mod Silence
mod Tests
