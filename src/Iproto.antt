-- ===== src/Iproto.antt =====
-- iproto.rs: the numbers of the protocol.
pub mod Key
pub mod Request
pub mod Response
pub mod Code
