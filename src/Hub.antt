-- ===== src/Hub.antt =====
-- src/hub.rs: upstream servers.
pub mod Circuit
pub mod Firewall
pub mod Loading
mod CircuitTests
mod FirewallTests
mod LoadingTests
