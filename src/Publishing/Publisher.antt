-- ===== src/Publishing/Publisher.antt =====
-- publishing/publisher.py: `BackendPublisher`. `publish_once` waits for the response; what other
-- threads enqueue meanwhile is the argument `arrivals`. The response, the heartbeat, the batch id and
-- the random number of the back-off are arguments too.
pub mod Defs
pub mod Retain
pub mod Kept
pub mod Cycle
pub mod Control
pub mod History
mod Tests
