-- ===== src/Rules/Engine.antt =====
-- rules/engine.py: the alert lifecycle of `RuleEngine`. The observed value and the text of an alert
-- are not modelled; `uuid.uuid4()` is the argument `fresh`.
pub mod Defs
pub mod Cap
pub mod Lifecycle
pub mod Steps
pub mod Hold
mod Tests
