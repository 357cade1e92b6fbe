-- ===== src/Rules/Evaluate.antt =====
-- apps/agent/src/telemetry_agent/rules/engine.py: `evaluate` and `apply_rules` of `RuleEngine`, on top of
-- the lifecycle of one alert.
pub mod Read
pub mod Defs
pub mod Division
pub mod Capped
pub mod Reload
mod Tests
