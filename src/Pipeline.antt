-- ===== src/Pipeline.antt =====
-- apps/agent/src/telemetry_agent/pipeline: the stages between the log monitor and the metrics.
pub mod BoundedQueue
pub mod Deduper
pub mod Offsets
pub mod Committer
