-- ===== src/Rules/Baseline.antt =====
-- apps/agent/src/telemetry_agent/rules/baseline.py: the rolling baseline of the anomaly rules. A time is
-- a whole number of microseconds.
pub mod State
pub mod Samples
pub mod Promotion
pub mod Clean
pub mod Size
pub mod Assess
pub mod Ticks
pub mod Division
mod Tests
