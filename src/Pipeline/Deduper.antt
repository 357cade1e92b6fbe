-- ===== src/Pipeline/Deduper.antt =====
-- pipeline/deduper.py. Times are in one fixed unit of the clock, `cutoff` is moved to the other side
-- of its comparison, since `now - ttl` may be negative.
pub mod Defs
pub mod Calls
pub mod Once
pub mod Sound
pub mod Expiry
mod Tests
