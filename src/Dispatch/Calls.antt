-- ===== src/Dispatch/Calls.antt =====
-- The `rpc_C_` functions of gck-rpc-dispatch.c, one for each call.
pub mod Slots
pub mod Sessions
pub mod Objects
pub mod Ciphers
pub mod Digests
pub mod Signatures
pub mod Combined
pub mod Keys
