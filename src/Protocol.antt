-- ===== src/Protocol.antt =====
-- client/packages/protocol/src: events, the connection's buffers and the tokio codec.
pub mod Events
pub mod Bytes
pub mod Connection
pub mod Codec
