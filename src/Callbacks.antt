-- ===== src/Callbacks.antt =====
-- apps/agent/src/telemetry_agent/callbacks: from an alert to its delivered callback.
pub mod Retry
pub mod Tracker
pub mod Queue
pub mod Dispatcher
