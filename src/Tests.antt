-- ===== src/Tests.antt =====
-- The properties at concrete inputs, where their conditions hold.
pub mod Buffers
pub mod Messages
pub mod Dispatches
pub mod Clients
pub mod Exchanges
pub mod Starts
