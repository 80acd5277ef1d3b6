-- ===== src/Netcode/Packet/Read.antt =====
-- `Packet::read` and `read_sequence` of renetcode/src/packet.rs.
use renet.Base.{ℕ, ltb, if◌then◌else◌}
use renet.Base.Outcome.{Outcome, returns, panics, Result, ok, err}
use renet.Packet.{Bytes}
use renet.Netcode.Limits.{xnonce_bytes, connect_token_private_bytes, challenge_token_bytes}
use renet.Netcode.Error.{IoError}
use renet.Netcode.Io.{Read, give, ◌>>=◌, read_bytes, read_u32, read_u64, from_le_bytes}
use renet.Netcode.PacketType.{PacketType}
use renet.Netcode.Packet.{
  Packet, connection_request, connection_denied, challenge, response, keep_alive, payload,
  disconnect,
}

unfoldable pub read_connection_request : Read Packet
read_connection_request = do
  version ← read_bytes 13
  protocol_id ← read_u64
  expire_timestamp ← read_u64
  xnonce ← read_bytes xnonce_bytes
  token_data ← read_bytes connect_token_private_bytes
  give (connection_request version protocol_id expire_timestamp xnonce token_data)

unfoldable pub read_challenge : Read Packet
read_challenge = do
  token_sequence ← read_u64
  token_data ← read_bytes challenge_token_bytes
  give (challenge token_sequence token_data)

unfoldable pub read_response : Read Packet
read_response = do
  token_sequence ← read_u64
  token_data ← read_bytes challenge_token_bytes
  give (response token_sequence token_data)

unfoldable pub read_keep_alive : Read Packet
read_keep_alive = do
  client_index ← read_u32
  max_clients ← read_u32
  give (keep_alive client_index max_clients)

-- What is left to read is dropped; a payload is all there is.
abbrev pub value_of : Result (Packet × Bytes) IoError → Result Packet IoError
value_of (ok x) = ok (x.0)
value_of (err e) = err e

unfoldable pub read : PacketType → Bytes → Result Packet IoError
read PacketType.payload src = ok (payload src)
read PacketType.connection_request src = value_of (read_connection_request src)
read PacketType.challenge src = value_of (read_challenge src)
read PacketType.response src = value_of (read_response src)
read PacketType.keep_alive src = value_of (read_keep_alive src)
read PacketType.connection_denied src = ok connection_denied
read PacketType.disconnect src = ok disconnect

-- A length above 8 is out of the range of the array; the rest of the array is zero.
unfoldable pub read_sequence : ℕ → Bytes → Outcome (Result (ℕ × Bytes) IoError)
read_sequence len src =
    if ltb 8 len then panics else returns ((read_bytes len >>= λ bs. give (from_le_bytes bs)) src)
