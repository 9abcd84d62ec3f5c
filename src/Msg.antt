-- ===== src/Msg.antt =====
-- The M-NSLP messages: src/msg and include/msg.
pub mod Serial
pub mod ObjectType
pub mod Code
pub mod Object
pub mod Store
pub mod Message
pub mod Ntlp
