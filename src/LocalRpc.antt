-- ===== src/LocalRpc.antt =====
-- crates/next-infra-local-rpc: the protocol between the desktop host and its local clients.
pub mod Bytes
pub mod Framing
pub mod Errors
pub mod Capabilities
pub mod Handshake
pub mod Messages
pub mod Session
mod Tests
