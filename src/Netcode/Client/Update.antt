-- ===== src/Netcode/Client/Update.antt =====
-- Sending payloads and `NetcodeClient::update` of renetcode/src/client.rs.
use renet.Base.{
  ℕ, suc, ◌+◌, ◌^◌, Bool, true, Option, none, some, ◌&&◌, not, if◌then◌else◌, ltb, leb, length,
}
use renet.Base.Word.{add_u64, sub_u64}
use renet.Base.Outcome.{Outcome, returns, ◌>>=◌, Result, ok, err}
use renet.Packet.{Bytes}
use renet.Netcode.Limits.{max_payload_bytes, send_rate, from_secs, as_secs}
use renet.Netcode.Error.{
  DisconnectReason, connect_token_expired, connection_timed_out, connection_response_timed_out,
  connection_request_timed_out, NetcodeError, expired, no_more_servers, payload_above_limit,
  client_not_connected,
}
use renet.Netcode.Error
use renet.Netcode.Crypto.{Ciphers}
use renet.Netcode.Address.{SocketAddr}
use renet.Netcode.Packet.{Packet}
use renet.Netcode.Limits
use renet.Netcode.Client.{
  ClientState, disconnected, sending_connection_request, sending_connection_response, connected,
  NetcodeClient, is_connected, sub_duration, address_at, Sent, encode_packet,
}

-- The client after a packet was encoded.
abbrev pub advanced : NetcodeClient → NetcodeClient
advanced client = record client { sequence = add_u64 client.sequence 1 }

abbrev pub payload_sent :
    NetcodeClient → Result Bytes NetcodeError → NetcodeClient × Result Sent NetcodeError
payload_sent client (err e) = (client, err e)
payload_sent client (ok bytes) = (
  record client {
    sequence = add_u64 client.sequence 1;
    last_packet_send_time = some client.current_time;
  },
  ok (client.server_addr, bytes),
)

unfoldable pub generate_payload_packet :
    Ciphers → NetcodeClient → Bytes → NetcodeClient × Result Sent NetcodeError
generate_payload_packet c client payload =
    if ltb max_payload_bytes (length payload)
    then (client, err payload_above_limit)
    else if not (is_connected client.state)
    then (client, err client_not_connected)
    else payload_sent client (encode_packet c client (Packet.payload payload))

-- A timeout of seconds that is positive as an `i32`.
abbrev pub has_timeout : ℕ → Bool
has_timeout timeout_seconds = ltb 0 timeout_seconds && ltb timeout_seconds (2 ^ 31)

abbrev pub timed_out : ℕ → ℕ → ℕ → Bool
timed_out timeout_seconds last_packet_received_time current_time =
    has_timeout timeout_seconds
    && ltb (last_packet_received_time + from_secs timeout_seconds) current_time

abbrev pub Updated : Type 0
Updated = NetcodeClient × Result Unit NetcodeError

abbrev pub timeout_reason : ClientState → DisconnectReason
timeout_reason sending_connection_response = connection_response_timed_out
timeout_reason _ = connection_request_timed_out

-- The next server address, when the one that was tried timed out.
abbrev pub next_address : NetcodeClient → Option SocketAddr → Updated
next_address client none = (client, err no_more_servers)
next_address client (some server_address) = (
  record client {
    state = sending_connection_request;
    server_addr = server_address;
    connect_start_time = client.current_time;
    last_packet_send_time = none;
    last_packet_received_time = client.current_time;
    challenge_token_sequence = 0;
  },
  ok tt,
)

unfoldable pub next_server : NetcodeClient → Updated
next_server client =
    let client' = record client {
      state = disconnected (timeout_reason client.state);
      server_addr_index = suc client.server_addr_index;
    } in
    if leb 32 client'.server_addr_index
    then (client', err no_more_servers)
    else next_address client'
        (address_at client'.connect_token.server_addresses client'.server_addr_index)

abbrev pub has_timed_out : NetcodeClient → Bool
has_timed_out client =
    timed_out client.connect_token.timeout_seconds client.last_packet_received_time
      client.current_time

unfoldable pub update_connecting : NetcodeClient → Outcome Updated
update_connecting client =
    let expire_seconds =
      sub_u64 client.connect_token.expire_timestamp client.connect_token.create_timestamp in
    sub_duration client.current_time client.connect_start_time >>= λ connecting. returns (
      if leb expire_seconds (as_secs connecting)
      then (record client { state = disconnected connect_token_expired }, err expired)
      else if has_timed_out client
      then next_server client
      else (client, ok tt))

unfoldable pub update_connected : NetcodeClient → Updated
update_connected client =
    if has_timed_out client
    then (
      record client { state = disconnected connection_timed_out },
      err (Error.disconnected connection_timed_out),
    )
    else (client, ok tt)

-- The match on the state, which is the client's.
abbrev pub update_in : ClientState → NetcodeClient → Outcome Updated
update_in sending_connection_request client = update_connecting client
update_in sending_connection_response client = update_connecting client
update_in connected client = returns (update_connected client)
update_in (disconnected reason) client = returns (client, err (Error.disconnected reason))

abbrev pub later : NetcodeClient → ℕ → NetcodeClient
later client duration = record client { current_time = client.current_time + duration }

unfoldable pub update_internal_state : NetcodeClient → ℕ → Outcome Updated
update_internal_state client duration = update_in client.state (later client duration)

-- Whether a packet is due: nothing was sent for the send rate.
unfoldable pub is_due : Option ℕ → ℕ → Outcome Bool
is_due none current_time = returns true
is_due (some last_packet_send_time) current_time =
    sub_duration current_time last_packet_send_time >>= λ d. returns (leb send_rate d)

-- The packet of the state.
abbrev pub packet_of : NetcodeClient → ClientState → Option Packet
packet_of client sending_connection_request = some (
    Packet.connection_request Limits.version_info client.connect_token.protocol_id
      client.connect_token.expire_timestamp client.connect_token.xnonce
      client.connect_token.private_data)
packet_of client sending_connection_response =
    some (Packet.response client.challenge_token_sequence client.challenge_token_data)
packet_of client connected = some (Packet.keep_alive 0 0)
packet_of client (disconnected reason) = none

abbrev pub encoded_or_nothing :
    NetcodeClient → Result Bytes NetcodeError → NetcodeClient × Option Sent
encoded_or_nothing client (err e) = (client, none)
encoded_or_nothing client (ok bytes) = (advanced client, some (client.server_addr, bytes))

abbrev pub send_packet : Ciphers → NetcodeClient → Option Packet → NetcodeClient × Option Sent
send_packet c client none = (client, none)
send_packet c client (some packet) =
    let client' = record client { last_packet_send_time = some client.current_time } in
    encoded_or_nothing client' (encode_packet c client' packet)

unfoldable pub generate_packet : Ciphers → NetcodeClient → Outcome (NetcodeClient × Option Sent)
generate_packet c client = is_due client.last_packet_send_time client.current_time >>= λ due.
    returns (if due then send_packet c client (packet_of client client.state) else (client, none))

abbrev pub update_after : Ciphers → Updated → Outcome (NetcodeClient × Option Sent)
update_after c (client, err e) = returns (client, none)
update_after c (client, ok _) = generate_packet c client

unfoldable pub update : Ciphers → NetcodeClient → ℕ → Outcome (NetcodeClient × Option Sent)
update c client duration = update_internal_state client duration >>= update_after c
