-- ===== src/Backend/IngestGuard.antt =====
-- apps/backend/src/telemetry_backend/services/ingest_guard.py: `IngestGuard`. A method runs under the
-- lock and is one function; the clock's reading is an argument. Times are whole microseconds.
pub mod Defs
pub mod Limit
pub mod Dedupe
pub mod RetryAfter
mod Tests
