-- ===== src/Netcode/Packet.antt =====
-- Packets of renetcode/src/packet.rs.
pub mod Write
pub mod Read
pub mod Encode
pub mod Decode
pub mod Challenge
pub mod Layout
pub mod Sealed
pub mod Opened
pub mod Panics
pub mod RoundTrip
pub mod Fits
mod Tests
use renet.Base.{ℕ, Bool, true, false, ◌∷◌, [], ◌++◌}
use renet.Packet.{Bytes}
use renet.Netcode.Limits
use renet.Netcode.Io.{to_le_bytes}
use renet.Netcode.PacketType.{PacketType, number}

pub data Packet : Type 0 where
  connection_request :
      (version_info : Bytes) (protocol_id expire_timestamp : ℕ) (xnonce private_data : Bytes)
      → Packet
  connection_denied : Packet
  challenge : (token_sequence : ℕ) (token_data : Bytes) → Packet
  response : (token_sequence : ℕ) (token_data : Bytes) → Packet
  keep_alive : (client_index max_clients : ℕ) → Packet
  payload : Bytes → Packet
  disconnect : Packet

abbrev pub packet_type : Packet → PacketType
packet_type (connection_request _ _ _ _ _) = PacketType.connection_request
packet_type connection_denied = PacketType.connection_denied
packet_type (challenge _ _) = PacketType.challenge
packet_type (response _ _) = PacketType.response
packet_type (keep_alive _ _) = PacketType.keep_alive
packet_type (payload _) = PacketType.payload
packet_type disconnect = PacketType.disconnect

abbrev pub id : Packet → ℕ
id p = number (packet_type p)

abbrev pub is_connection_request : Packet → Bool
is_connection_request (connection_request _ _ _ _ _) = true
is_connection_request _ = false

-- The version, the protocol and the first byte.
abbrev pub additional_data : ℕ → ℕ → Bytes
additional_data prefix protocol_id =
    Limits.version_info ++ to_le_bytes 8 protocol_id ++ (prefix ∷ [])
