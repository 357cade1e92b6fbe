-- ===== src/Runtime.antt =====
-- apps/agent/src/telemetry_agent/common: what the publisher and the callback dispatcher share.
pub mod Counters
pub mod Backoff
mod Tests
