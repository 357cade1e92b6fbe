-- ===== src/Metrics/Correlator.antt =====
-- apps/agent/src/telemetry_agent/metrics/correlation.py: `LatencyCorrelator`. The calls of the
-- aggregator are a list of samples, the newest first; times are whole microseconds.
pub mod Orders
pub mod Defs
pub mod Left
pub mod Once
pub mod Bounds
mod Tests
