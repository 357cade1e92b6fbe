-- ===== src/Publishing/Buffer.antt =====
-- publishing/buffer.py. A method runs under the buffer's lock and is one function; the number of
-- dropped items, on which `_notify_drops` calls the hook, is its second result.
pub mod Defs
pub mod Bounds
pub mod Contents
pub mod Loss
mod Tests
