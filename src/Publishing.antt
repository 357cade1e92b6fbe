-- ===== src/Publishing.antt =====
-- apps/agent/src/telemetry_agent/publishing: from buffered telemetry to acknowledged batches.
-- Times are whole microseconds, sizes are bytes.
pub mod Outcome
pub mod Buffer
pub mod Batch
pub mod Publisher
