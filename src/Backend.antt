-- ===== src/Backend.antt =====
-- apps/backend/src/telemetry_backend/services: what stands between the ingest endpoint and the stores,
-- the registry of agents, the alert store, and the rule that watches the agents' heartbeats.
pub mod IngestGuard
pub mod Registry
pub mod AlertStore
pub mod HeartbeatMonitor
