-- ===== src/Netcode/Server/Consistent/Packets.antt =====
-- Packets keep the clients of renetcode/src/server.rs consistent.
use renet.Base.{
  ℕ, ◌+◌, ◌%◌, ◌^◌, ◌≡◌, ◌≢◌, refl, sym, ◌∙◌, subst, Option, none, some, length, ltb, arith,
  Bool-cases, inl, inr,
}
use renet.Base.Outcome.{returns, WhenReturns, WhenReturns-all, WhenReturns-bind, Result, ok, err}
use renet.Packet.{Bytes}
use renet.Netcode.Limits.{mac_bytes}
use renet.Netcode.Error.{NetcodeError}
use renet.Netcode.Crypto.{Ciphers}
use renet.Netcode.Address.{SocketAddr}
use renet.Netcode.Packet.{Packet}
use renet.Netcode.Packet.Decode.{decode}
use renet.Netcode.Packet.Challenge.{ChallengeToken, decode_token}
use renet.Netcode.Server.{Connection, ConnectionState, NetcodeServer, Slots}
use renet.Netcode.Server.Lookup.{
  find_client_mut_by_addr, find_client_slot_by_id, free_slot, get_pending, remove_pending, is_some,
}
use renet.Netcode.Server.Lookup.Found.{find_client_mut_by_addr-none, find_client_mut_by_addr-some}
use renet.Netcode.Server.Lookup.Waiting.{get_pending-All, put_pending-All, length-put_pending-some}
use renet.Netcode.Server.Request.{Reply, encode_with}
use renet.Netcode.Server.Process.{
  protected, deny_response, connected_encoded, connect, placed, answered, response_decoded,
  pending_packet, with_pending, pending_decoded, process_pending, new_decoded, process_new,
  process_from, process_packet_internal, or_nothing, process_packet,
}
use renet.Netcode.Server.{ServerResult}
use renet.Netcode.Server.Consistent.{Holds, IsConsistent, IsPending}
use renet.Netcode.Server.Consistent.Clients.{set-IsConsistent, process_client-Keeps}
use renet.Netcode.Server.Consistent.Requests.{
  Keeps, send_globally-Keeps, removed-IsConsistent, handle_connection_request-Keeps,
}

-- No client is connected from the address.
abbrev IsFree : Slots → SocketAddr → Type 0
IsFree clients addr = (j : ℕ) (d : Connection) → Holds clients j d → d.addr ≢ addr

connected_encoded-Keeps :
    (server : NetcodeServer) (addr : SocketAddr) (slot : ℕ) (pending : Connection)
    (r : Result Bytes NetcodeError)
    → IsConsistent server
    → IsFree server.clients addr
    → pending.addr ≡ addr
    → pending.state ≡ ConnectionState.connected
    → Keeps (connected_encoded server addr slot pending r)
connected_encoded-Keeps server addr slot pending (err e) h free a s = h
connected_encoded-Keeps server addr slot pending (ok bytes) h free a s =
    set-IsConsistent server slot _ h (s, λ j d _ k q. free j d k (q ∙ a))

placed-Keeps :
    (c : Ciphers) (server : NetcodeServer) (addr : SocketAddr) (pending : Connection)
    (token : ChallengeToken) (o : Option ℕ)
    → IsConsistent server
    → IsFree server.clients addr
    → pending.addr ≡ addr
    → Keeps (placed c server addr pending token o)
unfolding deny_response connect
placed-Keeps c server addr pending token none h free a =
    send_globally-Keeps server addr
      (encode_with c server Packet.connection_denied server.global_sequence pending.send_key) h
placed-Keeps c server addr pending token (some slot) h free a =
    connected_encoded-Keeps server addr slot
      (record pending {
        state = ConnectionState.connected;
        user_data = token.user_data;
        last_packet_send_time = server.current_time;
      })
      (encode_with c server (Packet.keep_alive (slot % 2 ^ 32) (server.max_clients % 2 ^ 32))
        pending.sequence pending.send_key)
      h free a refl

answered-Keeps :
    (c : Ciphers) (server : NetcodeServer) (addr : SocketAddr) (pending : Connection)
    (token : ChallengeToken)
    → IsConsistent server
    → IsFree server.clients addr
    → pending.addr ≡ addr
    → Keeps (answered c server addr pending token)
unfolding answered
answered-Keeps c server addr pending token h free a =
    let server' = record server { pending_clients = remove_pending server.pending_clients addr } in
    let h' = removed-IsConsistent server addr h in
    elim (Bool-cases (is_some (find_client_slot_by_id server.clients token.client_id))) [
      | inl again ↦ rw again h'
      | inr first ↦
          rw first (placed-Keeps c server' addr pending token (free_slot server.clients) h' free a)
    ]

response_decoded-Keeps :
    (c : Ciphers) (server : NetcodeServer) (addr : SocketAddr) (pending : Connection)
    (r : Result ChallengeToken NetcodeError)
    → IsConsistent server
    → IsFree server.clients addr
    → pending.addr ≡ addr
    → Keeps (response_decoded c server addr pending r)
response_decoded-Keeps c server addr pending (err e) h free a = h
response_decoded-Keeps c server addr pending (ok token) h free a =
    answered-Keeps c server addr pending token h free a

pending_packet-Keeps :
    (c : Ciphers) (server : NetcodeServer) (addr : SocketAddr) (pending : Connection) (p : Packet)
    → IsConsistent server
    → IsFree server.clients addr
    → pending.addr ≡ addr
    → WhenReturns Keeps (pending_packet c server addr pending p)
unfolding pending_packet
pending_packet-Keeps c server addr pending (Packet.connection_request v i t x d) h free a =
    handle_connection_request-Keeps c server addr v i t x d h
pending_packet-Keeps c server addr pending (Packet.response s d) h free a =
    WhenReturns-all Keeps (decode_token c d s server.challenge_key) _
      (λ r. response_decoded-Keeps c server addr pending r h free a)
pending_packet-Keeps c server addr pending Packet.connection_denied h free a = h
pending_packet-Keeps c server addr pending (Packet.challenge _ _) h free a = h
pending_packet-Keeps c server addr pending (Packet.keep_alive _ _) h free a = h
pending_packet-Keeps c server addr pending (Packet.payload _) h free a = h
pending_packet-Keeps c server addr pending Packet.disconnect h free a = h

with_pending-IsConsistent :
    (server : NetcodeServer) (addr : SocketAddr) (pending pending' : Connection)
    → IsConsistent server
    → get_pending server.pending_clients addr ≡ some pending
    → IsPending (addr, pending')
    → IsConsistent (with_pending server addr pending')
with_pending-IsConsistent server addr pending pending' (d, c, p, l) e q = (
  d,
  c,
  put_pending-All IsPending server.pending_clients addr pending' p q,
  omega (arith, l, length-put_pending-some server.pending_clients addr pending pending' e),
)

pending_decoded-Keeps :
    (c : Ciphers) (server : NetcodeServer) (addr : SocketAddr) (pending pending' : Connection)
    (r : Result (ℕ × Packet) NetcodeError)
    → IsConsistent server
    → IsFree server.clients addr
    → get_pending server.pending_clients addr ≡ some pending
    → IsPending (addr, pending')
    → WhenReturns Keeps (pending_decoded c server addr pending' r)
pending_decoded-Keeps c server addr pending pending' (err x) h free e q =
    with_pending-IsConsistent server addr pending pending' h e q
pending_decoded-Keeps c server addr pending pending' (ok (_, packet)) h free e q =
    let later = record pending' { last_packet_received_time = server.current_time } in
    pending_packet-Keeps c (with_pending server addr later) addr later packet
      (with_pending-IsConsistent server addr pending later h e q) free (q.0)

new_decoded-Keeps :
    (c : Ciphers) (server : NetcodeServer) (addr : SocketAddr)
    (r : Result (ℕ × Packet) NetcodeError)
    → IsConsistent server
    → WhenReturns Keeps (new_decoded c server addr r)
new_decoded-Keeps c server addr (err e) h = h
new_decoded-Keeps c server addr (ok (_, Packet.connection_request v i t x d)) h =
    handle_connection_request-Keeps c server addr v i t x d h
new_decoded-Keeps c server addr (ok (_, Packet.connection_denied)) h = tt
new_decoded-Keeps c server addr (ok (_, Packet.challenge _ _)) h = tt
new_decoded-Keeps c server addr (ok (_, Packet.response _ _)) h = tt
new_decoded-Keeps c server addr (ok (_, Packet.keep_alive _ _)) h = tt
new_decoded-Keeps c server addr (ok (_, Packet.payload _)) h = tt
new_decoded-Keeps c server addr (ok (_, Packet.disconnect)) h = tt

process_from-Keeps :
    (c : Ciphers) (server : NetcodeServer) (addr : SocketAddr) (buffer : Bytes)
    (o : Option (ℕ × Connection)) (p : Option Connection)
    → IsConsistent server
    → find_client_mut_by_addr server.clients addr ≡ o
    → get_pending server.pending_clients addr ≡ p
    → WhenReturns Keeps (process_from c server addr buffer o p)
unfolding process_pending process_new
process_from-Keeps c server addr buffer (some (slot, client)) p h e f =
    process_client-Keeps server addr slot client h
      (find_client_mut_by_addr-some server.clients addr slot client e).0 c buffer
process_from-Keeps c server addr buffer none (some pending) h e f =
    WhenReturns-all Keeps (decode c buffer _ _ _) _ (λ d.
      pending_decoded-Keeps c server addr pending (protected pending d) d.result h
        (find_client_mut_by_addr-none server.clients addr e) f
        (get_pending-All IsPending server.pending_clients addr pending (h.2) f))
process_from-Keeps c server addr buffer none none h e f =
    WhenReturns-all Keeps (decode c buffer _ _ _) _
      (λ d. new_decoded-Keeps c server addr d.result h)

process_packet_internal-Keeps :
    (c : Ciphers) (server : NetcodeServer) (addr : SocketAddr) (buffer : Bytes)
    → IsConsistent server
    → WhenReturns Keeps (process_packet_internal c server addr buffer)
unfolding process_packet_internal
process_packet_internal-Keeps c server addr buffer h =
    elim (Bool-cases (ltb (length buffer) (2 + mac_bytes))) [
      | inl small ↦ rw small h
      | inr enough ↦ rw enough (process_from-Keeps c server addr buffer _ _ h refl refl)
    ]

or_nothing-server : (r : Reply) → (or_nothing r).0 ≡ r.0
or_nothing-server (server, err e) = refl
or_nothing-server (server, ok r) = refl

pub process_packet-IsConsistent :
    (c : Ciphers) (server : NetcodeServer) (addr : SocketAddr) (buffer : Bytes)
    → IsConsistent server
    → WhenReturns
        (λ (x : NetcodeServer × ServerResult). IsConsistent x.0)
        (process_packet c server addr buffer)
unfolding process_packet
process_packet-IsConsistent c server addr buffer h =
    WhenReturns-bind Keeps (λ (x : NetcodeServer × ServerResult). IsConsistent x.0)
      (process_packet_internal c server addr buffer) (λ r. returns (or_nothing r))
      (process_packet_internal-Keeps c server addr buffer h)
      (λ r k. subst IsConsistent (sym (or_nothing-server r)) k)
