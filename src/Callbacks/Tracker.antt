-- ===== src/Callbacks/Tracker.antt =====
-- callbacks/status.py: `DeliveryTracker`. A method runs under the tracker's lock and is one function.
pub mod Defs
pub mod Latest
mod Tests
