-- ===== src/Callbacks/Dispatcher.antt =====
-- callbacks/dispatcher.py and callbacks/delivery_wire.py: `CallbackDispatcher`. One worker delivers one
-- alert at a time. The clock, the UUIDs, the sink's answers and the random numbers of the back-off are
-- given for each attempt; the signature in the headers is not modelled.
pub mod Defs
pub mod Ending
pub mod Attempts
pub mod Delivery
mod Tests
