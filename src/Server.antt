-- ===== src/Server.antt =====
-- src/server.rs: the server, its state, and what a request meets. Each part of the state is the
-- model of its component; a lock that is taken is the state that is passed on.
pub mod State
pub mod Masking
pub mod Redaction
pub mod Steps
pub mod Gates
pub mod Execution
pub mod Requests
pub mod Messages
pub mod Tests
mod MessageTests
