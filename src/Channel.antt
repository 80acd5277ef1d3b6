-- ===== src/Channel.antt =====
-- The channels of renet/src/channel.
pub mod Config
pub mod Splice
pub mod Pieces
pub mod Slices
pub mod Reliable
pub mod Unreliable
