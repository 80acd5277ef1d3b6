-- ===== src/Netcode/Server/Process.antt =====
-- `NetcodeServer::process_packet` of renetcode/src/server.rs.
use renet.Base.{ℕ, ◌+◌, ◌^◌, ◌%◌, true, Option, none, some, if◌then◌else◌, ltb, length, set}
use renet.Base.Word.{add_u64}
use renet.Base.Outcome.{Outcome, returns, panics, ◌>>=◌, Result, ok, err}
use renet.Packet.{Bytes}
use renet.Netcode.Limits.{mac_bytes}
use renet.Netcode.Error.{NetcodeError, packet_too_small}
use renet.Netcode.Crypto.{Ciphers}
use renet.Netcode.Address.{SocketAddr}
use renet.Netcode.Packet.{Packet}
use renet.Netcode.Packet.Decode.{Decoded, decode}
use renet.Netcode.Packet.Challenge.{ChallengeToken, decode_token}
use renet.Netcode.Client.Receive.{protection_or}
use renet.Netcode.Server.{
  Connection, ConnectionState, NetcodeServer, ServerResult, nothing, payload, client_connected,
  client_disconnected,
}
use renet.Netcode.Server.Lookup.{
  find_client_mut_by_addr, find_client_slot_by_id, free_slot, get_pending, remove_pending,
  put_pending, is_some,
}
use renet.Netcode.Server.Request.{Reply, encode_with, send_globally, handle_connection_request}

-- The packet of a client that is connected.
unfoldable pub connected_packet : NetcodeServer → SocketAddr → ℕ → Connection → Packet → Reply
connected_packet server addr slot client Packet.disconnect = (
  record server { clients = set server.clients slot none },
  ok (client_disconnected client.client_id addr none),
)
connected_packet server addr slot client (Packet.payload p) = (
  record server { clients = set server.clients slot (some (record client { confirmed = true })) },
  ok (payload client.client_id p),
)
connected_packet server addr slot client (Packet.keep_alive _ _) = (
  record server { clients = set server.clients slot (some (record client { confirmed = true })) },
  ok nothing,
)
connected_packet server addr slot client _ =
    (record server { clients = set server.clients slot (some client) }, ok nothing)

-- `client` is the client in the slot, after the call has changed it.
abbrev pub packet_in_state :
    ConnectionState → NetcodeServer → SocketAddr → ℕ → Connection → Packet → Reply
packet_in_state ConnectionState.connected server addr slot client packet =
    connected_packet server addr slot client packet
packet_in_state _ server addr slot client packet =
    (record server { clients = set server.clients slot (some client) }, ok nothing)

abbrev pub protected : Connection → Decoded → Connection
protected client d = record client {
  replay_protection = protection_or d.replay_protection client.replay_protection;
}

abbrev pub client_decoded :
    NetcodeServer → SocketAddr → ℕ → Connection → Result (ℕ × Packet) NetcodeError → Reply
client_decoded server addr slot client (err e) =
    (record server { clients = set server.clients slot (some client) }, err e)
client_decoded server addr slot client (ok (_, packet)) =
    packet_in_state client.state server addr slot
      (record client { last_packet_received_time = server.current_time }) packet

unfoldable pub process_client :
    Ciphers → NetcodeServer → SocketAddr → Bytes → ℕ → Connection → Outcome Reply
process_client c server addr buffer slot client =
    decode c buffer server.protocol_id (some client.receive_key) (some client.replay_protection)
    >>= λ d. returns (client_decoded server addr slot (protected client d) d.result)

-- No slot is free. The pending client was removed.
unfoldable pub deny_response : Ciphers → NetcodeServer → SocketAddr → Connection → Reply
deny_response c server addr pending =
    send_globally server addr
      (encode_with c server Packet.connection_denied server.global_sequence pending.send_key)

-- The pending client becomes the client of the slot, if the packet to it was encoded.
abbrev pub connected_encoded :
    NetcodeServer → SocketAddr → ℕ → Connection → Result Bytes NetcodeError → Reply
connected_encoded server addr client_index pending (err e) = (server, err e)
connected_encoded server addr client_index pending (ok bytes) =
    let client = record pending { sequence = add_u64 pending.sequence 1 } in
    (
      record server { clients = set server.clients client_index (some client) },
      ok (client_connected client.client_id addr client.user_data bytes),
    )

unfoldable pub connect :
    Ciphers → NetcodeServer → SocketAddr → ℕ → Connection → ChallengeToken → Reply
connect c server addr client_index pending token =
    let pending' = record pending {
      state = ConnectionState.connected;
      user_data = token.user_data;
      last_packet_send_time = server.current_time;
    } in
    connected_encoded server addr client_index pending' (
      encode_with c server (Packet.keep_alive (client_index % 2 ^ 32) (server.max_clients % 2 ^ 32))
        pending'.sequence pending'.send_key)

abbrev pub placed :
    Ciphers → NetcodeServer → SocketAddr → Connection → ChallengeToken → Option ℕ → Reply
placed c server addr pending token none = deny_response c server addr pending
placed c server addr pending token (some client_index) =
    connect c server addr client_index pending token

unfoldable pub answered : Ciphers → NetcodeServer → SocketAddr → Connection → ChallengeToken → Reply
answered c server addr pending token =
    let server' = record server { pending_clients = remove_pending server.pending_clients addr } in
    if is_some (find_client_slot_by_id server'.clients token.client_id)
    then (server', ok nothing)
    else placed c server' addr pending token (free_slot server'.clients)

abbrev pub response_decoded :
    Ciphers → NetcodeServer → SocketAddr → Connection → Result ChallengeToken NetcodeError → Reply
response_decoded c server addr pending (err e) = (server, err e)
response_decoded c server addr pending (ok token) = answered c server addr pending token

unfoldable pub pending_packet :
    Ciphers → NetcodeServer → SocketAddr → Connection → Packet → Outcome Reply
pending_packet c server addr pending
      (Packet.connection_request version protocol_id expire_timestamp xnonce private_data) =
    handle_connection_request c server addr version protocol_id expire_timestamp xnonce private_data
pending_packet c server addr pending (Packet.response token_sequence token_data) =
    decode_token c token_data token_sequence server.challenge_key >>= λ r.
    returns (response_decoded c server addr pending r)
pending_packet c server addr pending _ = returns (server, ok nothing)

abbrev pub with_pending : NetcodeServer → SocketAddr → Connection → NetcodeServer
with_pending server addr pending = record server {
  pending_clients = put_pending server.pending_clients addr pending;
}

abbrev pub pending_decoded :
    Ciphers
    → NetcodeServer
    → SocketAddr
    → Connection
    → Result (ℕ × Packet) NetcodeError
    → Outcome Reply
pending_decoded c server addr pending (err e) = returns (with_pending server addr pending, err e)
pending_decoded c server addr pending (ok (_, packet)) =
    let pending' = record pending { last_packet_received_time = server.current_time } in
    pending_packet c (with_pending server addr pending') addr pending' packet

unfoldable pub process_pending :
    Ciphers → NetcodeServer → SocketAddr → Bytes → Connection → Outcome Reply
process_pending c server addr buffer pending =
    decode c buffer server.protocol_id (some pending.receive_key) (some pending.replay_protection)
    >>= λ d. pending_decoded c server addr (protected pending d) d.result

-- Every packet but a connection request is `unreachable!`.
abbrev pub new_decoded :
    Ciphers → NetcodeServer → SocketAddr → Result (ℕ × Packet) NetcodeError → Outcome Reply
new_decoded c server addr (err e) = returns (server, err e)
new_decoded c server addr
      (ok (_, Packet.connection_request version protocol_id expire_timestamp xnonce private_data)) =
    handle_connection_request c server addr version protocol_id expire_timestamp xnonce private_data
new_decoded c server addr (ok (_, _)) = panics

unfoldable pub process_new : Ciphers → NetcodeServer → SocketAddr → Bytes → Outcome Reply
process_new c server addr buffer =
    decode c buffer server.protocol_id none none >>= λ d. new_decoded c server addr d.result

abbrev pub process_from :
    Ciphers
    → NetcodeServer
    → SocketAddr
    → Bytes
    → Option (ℕ × Connection)
    → Option Connection
    → Outcome Reply
process_from c server addr buffer (some (slot, client)) _ =
    process_client c server addr buffer slot client
process_from c server addr buffer none (some pending) = process_pending c server addr buffer pending
process_from c server addr buffer none none = process_new c server addr buffer

unfoldable pub process_packet_internal :
    Ciphers → NetcodeServer → SocketAddr → Bytes → Outcome Reply
process_packet_internal c server addr buffer =
    if ltb (length buffer) (2 + mac_bytes)
    then returns (server, err packet_too_small)
    else process_from c server addr buffer (find_client_mut_by_addr server.clients addr)
        (get_pending server.pending_clients addr)

abbrev pub or_nothing : Reply → NetcodeServer × ServerResult
or_nothing (server, err e) = (server, nothing)
or_nothing (server, ok r) = (server, r)

unfoldable pub process_packet :
    Ciphers → NetcodeServer → SocketAddr → Bytes → Outcome (NetcodeServer × ServerResult)
process_packet c server addr buffer =
    process_packet_internal c server addr buffer >>= λ r. returns (or_nothing r)
