-- ===== src/Rules.antt =====
-- apps/agent/src/telemetry_agent/rules: from a window's metrics to alerts.
pub mod Snapshot
pub mod Tiers
pub mod Engine
pub mod Baseline
pub mod Evaluate
