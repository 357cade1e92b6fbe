-- ===== src/Metrics.antt =====
-- The metrics: the latency histogram that agent and backend share, and the correlation of orders with
-- their responses, which fills it.
pub mod Histogram
pub mod Correlator
