-- ===== src/Netcode.antt =====
-- The crate renetcode, in renetcode/src.
pub mod Limits
pub mod Error
pub mod Io
pub mod Crypto
pub mod PacketType
pub mod Packet
pub mod Address
pub mod Token
pub mod Client
pub mod Server
pub mod Handshake
pub mod Replay
