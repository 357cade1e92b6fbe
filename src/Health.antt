-- ===== src/Health.antt =====
-- The agent's health: apps/agent/src/telemetry_agent/health/window.py, the counter of a sliding window.
pub mod Window
mod Tests
