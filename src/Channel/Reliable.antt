-- ===== src/Channel/Reliable.antt =====
-- The reliable channels of renet/src/channel/reliable.rs. A `Duration` is its number of nanoseconds,
-- and the difference of two panics when it is negative.
pub mod Send
pub mod Receive
