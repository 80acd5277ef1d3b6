-- ===== src/Channel/Unreliable.antt =====
-- renet/src/channel/unreliable.rs.
pub mod Send
pub mod Receive
mod Tests
