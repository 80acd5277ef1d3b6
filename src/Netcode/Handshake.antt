-- ===== src/Netcode/Handshake.antt =====
-- A client and a server of renetcode (renetcode/src/client.rs and renetcode/src/server.rs) that
-- connect to each other.
pub mod Delivered
pub mod Asking
pub mod Answering
pub mod Tokens
pub mod Responding
pub mod Arriving
pub mod Steps
pub mod Connecting
mod Tests
