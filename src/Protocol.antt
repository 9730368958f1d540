-- ===== src/Protocol.antt =====
-- src/protocol.rs: the types of the protocol.
pub mod Ids
pub mod Results
mod Tests
