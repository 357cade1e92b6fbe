-- ===== src/Backend/Registry.antt =====
-- apps/backend/src/telemetry_backend/services/agent_registry.py: `AgentRegistry`. A method runs under
-- the lock and is one function; the clock's reading is an argument. Times are whole microseconds.
pub mod Defs
pub mod Stale
pub mod Latest
pub mod Newest
mod Tests
