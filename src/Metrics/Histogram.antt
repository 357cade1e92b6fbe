-- ===== src/Metrics/Histogram.antt =====
-- packages/telemetry_shared/src/telemetry_shared/metrics/histogram.py: `Histogram`. A latency is a whole
-- number of microseconds, which is exact, as `Decimal` is.
pub mod Defs
pub mod Buckets
pub mod Merge
pub mod Ranges
mod Tests
