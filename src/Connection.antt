-- ===== src/Connection.antt =====
-- The connection of renet/src/remote_connection.rs.
pub mod Acks
pub mod Process
pub mod Client
pub mod Delivery
