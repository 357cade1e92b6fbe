-- ===== src/Backend/HeartbeatMonitor.antt =====
-- apps/backend/src/telemetry_backend/services/heartbeat_monitor.py: `HeartbeatMonitor`, which reads the
-- registry and writes to the alert store. The endless loop of `run` calls `evaluate_once` and sleeps.
pub mod Defs
pub mod Events
pub mod Outage
pub mod Recovery
mod Tests
