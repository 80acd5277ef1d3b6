-- ===== src/Netcode/Server/Update.antt =====
-- Payloads, `update`, `update_client` and `disconnect` of renetcode/src/server.rs.
use renet.Base.{
  ℕ, ◌+◌, ◌%◌, ◌^◌, Bool, true, false, Option, none, some, [], ◌∷◌, if◌then◌else◌, ltb, leb, length,
  get_or, set,
}
use renet.Base.Word.{add_u64}
use renet.Base.Outcome.{Result, ok, err}
use renet.Packet.{Bytes}
use renet.Netcode.Limits.{max_payload_bytes, send_rate, as_secs}
use renet.Netcode.Error.{NetcodeError, payload_above_limit, client_not_found}
use renet.Netcode.Crypto.{Ciphers}
use renet.Netcode.Packet.{Packet}
use renet.Netcode.Client.{Sent}
use renet.Netcode.Client.Update.{timed_out}
use renet.Netcode.Server.{
  Connection, ConnectionState, NetcodeServer, Pending, ServerResult, nothing, packet_to_send,
  client_disconnected,
}
use renet.Netcode.Server.Lookup.{find_client_by_id, find_client_slot_by_id, put_client_by_id}
use renet.Netcode.Server.Request.{encode_with}

-- The client after a packet to it was encoded.
abbrev pub sent_to : NetcodeServer → Connection → Connection
sent_to server client = record client {
  sequence = add_u64 client.sequence 1;
  last_packet_send_time = server.current_time;
}

abbrev pub payload_encoded :
    NetcodeServer
    → ℕ
    → Connection
    → Result Bytes NetcodeError
    → NetcodeServer × Result Sent NetcodeError
payload_encoded server client_id client (err e) = (server, err e)
payload_encoded server client_id client (ok bytes) = (
  record server { clients = put_client_by_id server.clients client_id (sent_to server client) },
  ok (client.addr, bytes),
)

abbrev pub payload_to :
    Ciphers
    → NetcodeServer
    → ℕ
    → Bytes
    → Option Connection
    → NetcodeServer × Result Sent NetcodeError
payload_to c server client_id payload none = (server, err client_not_found)
payload_to c server client_id payload (some client) =
    payload_encoded server client_id client
      (encode_with c server (Packet.payload payload) client.sequence client.send_key)

unfoldable pub generate_payload_packet :
    Ciphers → NetcodeServer → ℕ → Bytes → NetcodeServer × Result Sent NetcodeError
generate_payload_packet c server client_id payload =
    if ltb max_payload_bytes (length payload)
    then (server, err payload_above_limit)
    else payload_to c server client_id payload (find_client_by_id server.clients client_id)

-- The pending clients that are retained: their state, which the loop sets when the token has
-- expired, is not `Disconnected`.
abbrev pub is_retained : ℕ → Connection → Bool
is_retained current_time client =
    if ltb client.expire_timestamp (as_secs current_time)
    then false
    else elim client.state [ ConnectionState.disconnected ↦ false | _ ↦ true ]

unfoldable pub retain : ℕ → Pending → Pending
retain current_time [] = []
retain current_time ((a, client) ∷ pending) =
    let rest = retain current_time pending in
    if is_retained current_time client then (a, client) ∷ rest else rest

unfoldable pub update : NetcodeServer → ℕ → NetcodeServer
update server duration =
    let current_time = server.current_time + duration in
    record server {
      current_time = current_time;
      pending_clients = retain current_time server.pending_clients;
    }

-- A packet that could not be encoded is left out.
abbrev pub bytes_or_none : Result Bytes NetcodeError → Option Bytes
bytes_or_none (ok bytes) = some bytes
bytes_or_none (err e) = none

unfoldable pub drop_client :
    Ciphers → NetcodeServer → ℕ → ℕ → Connection → NetcodeServer × ServerResult
drop_client c server client_id slot client =
    let server' = record server { clients = set server.clients slot none } in
    (
      server',
      client_disconnected client_id client.addr
          (bytes_or_none (encode_with c server' Packet.disconnect client.sequence client.send_key)),
    )

abbrev pub keep_alive_encoded :
    NetcodeServer → ℕ → Connection → Result Bytes NetcodeError → NetcodeServer × ServerResult
keep_alive_encoded server slot client (err e) = (server, nothing)
keep_alive_encoded server slot client (ok bytes) = (
  record server { clients = set server.clients slot (some (sent_to server client)) },
  packet_to_send client.addr bytes,
)

abbrev pub is_ended : ConnectionState → Bool
is_ended ConnectionState.disconnected = true
is_ended _ = false

abbrev pub update_slot :
    Ciphers → NetcodeServer → ℕ → ℕ → Option Connection → NetcodeServer × ServerResult
update_slot c server client_id slot none = (server, nothing)
update_slot c server client_id slot (some client) =
    let keep_alive = keep_alive_encoded server slot client (
      encode_with c server (Packet.keep_alive (slot % 2 ^ 32) (server.max_clients % 2 ^ 32))
        client.sequence client.send_key) in
    if timed_out client.timeout_seconds client.last_packet_received_time server.current_time
    then drop_client c server client_id slot client
    else if is_ended client.state
    then drop_client c server client_id slot client
    else if leb (client.last_packet_send_time + send_rate) server.current_time
    then keep_alive
    else (server, nothing)

abbrev pub at_slot :
    (ℕ → Option Connection → NetcodeServer × ServerResult)
    → NetcodeServer
    → Option ℕ
    → NetcodeServer × ServerResult
at_slot f server none = (server, nothing)
at_slot f server (some slot) = f slot (get_or server.clients slot none)

unfoldable pub update_client : Ciphers → NetcodeServer → ℕ → NetcodeServer × ServerResult
update_client c server client_id =
    at_slot (update_slot c server client_id) server
      (find_client_slot_by_id server.clients client_id)

-- The slot holds a client, since the look-up found it.
abbrev pub drop_slot :
    Ciphers → NetcodeServer → ℕ → ℕ → Option Connection → NetcodeServer × ServerResult
drop_slot c server client_id slot none = (server, nothing)
drop_slot c server client_id slot (some client) = drop_client c server client_id slot client

unfoldable pub disconnect : Ciphers → NetcodeServer → ℕ → NetcodeServer × ServerResult
disconnect c server client_id =
    at_slot (drop_slot c server client_id) server (find_client_slot_by_id server.clients client_id)
