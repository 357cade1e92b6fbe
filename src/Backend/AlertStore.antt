-- ===== src/Backend/AlertStore.antt =====
-- apps/backend/src/telemetry_backend/services/alert_store.py: `AlertStore`, the alerts of every
-- instance, the active ones and a bounded history of the rest. A method runs under the locks and is
-- one function.
pub mod Records
pub mod Defs
pub mod History
pub mod Valid
pub mod Merge
pub mod Resolved
pub mod Stays
pub mod Runs
pub mod Live
pub mod Query
pub mod Passing
pub mod Listing
mod Tests
