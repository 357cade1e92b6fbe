-- ===== src/Pipeline/BoundedQueue.antt =====
-- pipeline/bounded_queue.py. A method runs under the queue's lock, so it is one function on the
-- state. Where it waits on a condition the lock is free: what the wait ends with (the time-out, or
-- the state that the other threads have left) is an argument, the schedule `List (Wake A)`.
pub mod Defs
pub mod Bounds
pub mod Traffic
pub mod Fifo
mod Tests
