-- ===== src/Netcode/Token.antt =====
-- Connect tokens, renetcode/src/token.rs.
pub mod Write
pub mod Read
pub mod Generate
pub mod Layout
pub mod RoundTrip
pub mod Sealed
mod Tests
use renet.Base.{ℕ, Option, List, ◌++◌}
use renet.Packet.{Bytes}
use renet.Netcode.Limits
use renet.Netcode.Io.{to_le_bytes}
use renet.Netcode.Address.{SocketAddr}

-- A list of 32 places.
abbrev pub Hosts : Type 0
Hosts = List (Option SocketAddr)

-- `timeout_seconds` is an `i32`, kept as its bit pattern.
pub record ConnectToken : Type 0 where
  pub client_id : ℕ
  pub version_info : Bytes
  pub protocol_id : ℕ
  pub create_timestamp : ℕ
  pub expire_timestamp : ℕ
  pub xnonce : Bytes
  pub server_addresses : Hosts
  pub client_to_server_key : Bytes
  pub server_to_client_key : Bytes
  pub private_data : Bytes
  pub timeout_seconds : ℕ

pub record PrivateConnectToken : Type 0 where
  pub client_id : ℕ
  pub timeout_seconds : ℕ
  pub server_addresses : Hosts
  pub client_to_server_key : Bytes
  pub server_to_client_key : Bytes
  pub user_data : Bytes

-- What the calls of `generate_random_bytes` give.
pub record Random : Type 0 where
  pub xnonce : Bytes
  pub client_to_server_key : Bytes
  pub server_to_client_key : Bytes
  pub user_data : Bytes

-- The version, the protocol and the time of expiry.
abbrev pub additional_data : ℕ → ℕ → Bytes
additional_data protocol_id expire_timestamp =
    Limits.version_info ++ to_le_bytes 8 protocol_id ++ to_le_bytes 8 expire_timestamp
