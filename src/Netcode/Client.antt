-- ===== src/Netcode/Client.antt =====
-- `NetcodeClient` of renetcode/src/client.rs.
pub mod Receive
pub mod Update
pub mod Protocol
pub mod Runs
pub mod Silence
mod Tests
use renet.Base.{
  ℕ, ◌+◌, ◌-◌, ◌*◌, ◌^◌, ◌≡◌, Bool, true, false, Option, none, some, List, [], ◌∷◌, ◌&&◌,
  if◌then◌else◌, ltb, leb, length, get_or, replicate,
}
use renet.Base.Word.{add_u64, sub_u64}
use renet.Base.Outcome.{Outcome, returns, panics, ◌>>=◌, Result, ok, err}
use renet.Packet.{Bytes}
use renet.Netcode.Limits.{
  challenge_token_bytes, max_packet_bytes, max_payload_bytes, send_rate, from_secs, as_secs,
}
use renet.Netcode.Error.{
  DisconnectReason, connect_token_expired, connection_timed_out, connection_response_timed_out,
  connection_request_timed_out, connection_denied, disconnected_by_client, disconnected_by_server,
  NetcodeError, expired, no_more_servers, payload_above_limit, client_not_connected,
  TokenGenerationError, token_generation,
}
use renet.Netcode.Error
use renet.Netcode.Crypto.{Ciphers}
use renet.Netcode.Address.{SocketAddr}
use renet.Netcode.Token.{ConnectToken, Random, Hosts}
use renet.Netcode.Token.Generate
use renet.Netcode.Replay.{ReplayProtection}
use renet.Netcode.Replay
use renet.Netcode.Packet.{Packet}
use renet.Netcode.Packet.Encode.{encode}
use renet.Netcode.Packet.Decode.{Decoded, decode}

pub data ClientState : Type 0 where
  disconnected : DisconnectReason → ClientState
  sending_connection_request : ClientState
  sending_connection_response : ClientState
  connected : ClientState

pub data ClientAuthentication : Type 0 where
  secure : ConnectToken → ClientAuthentication
  unsecure :
      (protocol_id client_id : ℕ) (server_addr : SocketAddr) (user_data : Option Bytes)
      → ClientAuthentication

-- `out`, a buffer that each call overwrites, is left out, and `send_rate`, which is a constant.
pub record NetcodeClient : Type 0 where
  pub state : ClientState
  pub client_id : ℕ
  pub connect_start_time : ℕ
  pub last_packet_send_time : Option ℕ
  pub last_packet_received_time : ℕ
  pub current_time : ℕ
  pub sequence : ℕ
  pub server_addr : SocketAddr
  pub server_addr_index : ℕ
  pub connect_token : ConnectToken
  pub challenge_token_sequence : ℕ
  pub challenge_token_data : Bytes
  pub max_clients : ℕ
  pub client_index : ℕ
  pub replay_protection : ReplayProtection

abbrev token_for :
    Ciphers → Random → ℕ → ClientAuthentication → Result ConnectToken TokenGenerationError
token_for c r current_time (secure token) = ok token
token_for c r current_time (unsecure protocol_id client_id server_addr user_data) =
    Generate.generate c r current_time protocol_id 300 client_id 15 (server_addr ∷ []) user_data
      (replicate 32 0)

abbrev started : ℕ → ConnectToken → Option SocketAddr → Outcome (Result NetcodeClient NetcodeError)
started current_time token none = panics
started current_time token (some server_addr) = returns (
    ok (record {
      state = sending_connection_request;
      client_id = token.client_id;
      connect_start_time = current_time;
      last_packet_send_time = none;
      last_packet_received_time = current_time;
      current_time = current_time;
      sequence = 0;
      server_addr = server_addr;
      server_addr_index = 0;
      connect_token = token;
      challenge_token_sequence = 0;
      challenge_token_data = replicate challenge_token_bytes 0;
      max_clients = 0;
      client_index = 0;
      replay_protection = Replay.new;
    }))

-- `server_addresses[i]` for an index below 32.
abbrev pub address_at : Hosts → ℕ → Option SocketAddr
address_at hosts i = get_or hosts i none

abbrev started_with :
    ℕ → Result ConnectToken TokenGenerationError → Outcome (Result NetcodeClient NetcodeError)
started_with current_time (err e) = returns (err (token_generation e))
started_with current_time (ok token) =
    started current_time token (address_at token.server_addresses 0)

unfoldable pub new :
    Ciphers → Random → ℕ → ClientAuthentication → Outcome (Result NetcodeClient NetcodeError)
new c r current_time authentication =
    started_with current_time (token_for c r current_time authentication)

abbrev pub is_connecting : ClientState → Bool
is_connecting sending_connection_request = true
is_connecting sending_connection_response = true
is_connecting _ = false

abbrev pub is_connected : ClientState → Bool
is_connected connected = true
is_connected _ = false

abbrev pub is_disconnected : ClientState → Bool
is_disconnected (disconnected _) = true
is_disconnected _ = false

-- A difference of two times that would be negative panics.
abbrev pub sub_duration : ℕ → ℕ → Outcome ℕ
sub_duration a b = if ltb a b then panics else returns (a - b)

unfoldable pub time_since_last_received_packet : NetcodeClient → Outcome ℕ
time_since_last_received_packet client =
    sub_duration client.current_time client.last_packet_received_time

abbrev pub disconnect_reason : ClientState → Option DisconnectReason
disconnect_reason (disconnected reason) = some reason
disconnect_reason _ = none

-- A packet encoded with the client's sequence and key.
abbrev pub encode_packet : Ciphers → NetcodeClient → Packet → Result Bytes NetcodeError
encode_packet c client packet =
    encode c packet max_packet_bytes client.connect_token.protocol_id
      (some (client.sequence, client.connect_token.client_to_server_key))

-- A packet and where it goes.
abbrev pub Sent : Type 0
Sent = SocketAddr × Bytes

abbrev pub addressed : NetcodeClient → Result Bytes NetcodeError → Result Sent NetcodeError
addressed client (ok bytes) = ok (client.server_addr, bytes)
addressed client (err e) = err e

unfoldable pub disconnect : Ciphers → NetcodeClient → NetcodeClient × Result Sent NetcodeError
disconnect c client =
    let client' = record client { state = disconnected disconnected_by_client } in
    (client', addressed client' (encode_packet c client' Packet.disconnect))
