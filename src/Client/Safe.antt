-- ===== src/Client/Safe.antt =====
-- The functions of Client/Calls keep to the table of signatures, one file for each group.
pub mod Slots
pub mod Sessions
pub mod Objects
pub mod Ciphers
pub mod Digests
pub mod Signatures
pub mod Combined
pub mod Keys
