-- ===== src/Dispatch/Safe.antt =====
-- Each handler reads and writes what the table of signatures says (gck-rpc-dispatch.c).
pub mod Slots
pub mod Sessions
pub mod Objects
pub mod Ciphers
pub mod Digests
pub mod Signatures
pub mod Combined
pub mod Keys
