-- ===== src/Protocol.antt =====
-- The wire protocol: internal/protocol.
pub mod OpCode
pub mod Frame
pub mod Payload
mod Examples
