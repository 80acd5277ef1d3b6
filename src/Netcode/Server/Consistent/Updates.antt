-- ===== src/Netcode/Server/Consistent/Updates.antt =====
-- The calls without a packet keep the clients of renetcode/src/server.rs consistent.
use renet.Base.{
  ℕ, zero, suc, ◌+◌, ◌%◌, ◌^◌, ◌≤◌, ◌≡◌, refl, sym, ap, subst, Option, none, some, [], ◌∷◌, All,
  length, ltb, leb, get_or, arith, Bool-cases, inl, inr,
}
use renet.Base.Outcome.{Result, ok, err}
use renet.Packet.{Bytes}
use renet.Netcode.Limits.{max_payload_bytes, send_rate}
use renet.Netcode.Error.{NetcodeError}
use renet.Netcode.Crypto.{Ciphers}
use renet.Netcode.Address.{SocketAddr}
use renet.Netcode.Packet.{Packet}
use renet.Netcode.Client.Update.{timed_out}
use renet.Netcode.Server.{Connection, NetcodeServer, Pending, Slots}
use renet.Netcode.Server.Lookup.{find_client_by_id, find_client_slot_by_id}
use renet.Netcode.Server.Lookup.Found.{put_client_by_id-set}
use renet.Netcode.Server.Request.{encode_with}
use renet.Netcode.Server.Update.{
  payload_encoded, payload_to, generate_payload_packet, is_retained, retain, update, drop_client,
  keep_alive_encoded, is_ended, update_slot, at_slot, update_client, drop_slot, disconnect, sent_to,
}
use renet.Netcode.Server.Consistent.{Holds, IsConsistent, IsPending}
use renet.Netcode.Server.Consistent.Clients.{set-IsConsistent, changed-IsConsistent}

retain-All :
    (P : SocketAddr × Connection → Type 0) (now : ℕ) (pending : Pending)
    → All P pending
    → All P (retain now pending)
unfolding retain
retain-All P now [] h = tt
retain-All P now ((a, client) ∷ pending) h = elim (Bool-cases (is_retained now client)) [
  | inl kept ↦ rw kept (h.0, retain-All P now pending (h.1))
  | inr gone ↦ rw gone (retain-All P now pending (h.1))
]

length-retain : (now : ℕ) (pending : Pending) → length (retain now pending) ≤ length pending
unfolding retain
length-retain now [] = omega arith
length-retain now ((a, client) ∷ pending) = elim (Bool-cases (is_retained now client)) [
  | inl kept ↦ rw kept (omega (arith, length-retain now pending))
  | inr gone ↦ rw gone (omega (arith, length-retain now pending))
]

pub update-IsConsistent :
    (server : NetcodeServer) (duration : ℕ)
    → IsConsistent server
    → IsConsistent (update server duration)
unfolding update
update-IsConsistent server duration (d, c, p, l) =
    let now = server.current_time + duration in
    (
      d,
      c,
      retain-All IsPending now server.pending_clients p,
      omega (arith, l, length-retain now server.pending_clients),
    )

payload_encoded-IsConsistent :
    (server : NetcodeServer) (client_id : ℕ) (client : Connection) (r : Result Bytes NetcodeError)
    → IsConsistent server
    → find_client_by_id server.clients client_id ≡ some client
    → IsConsistent (payload_encoded server client_id client r).0
payload_encoded-IsConsistent server client_id client (err e) h f = h
payload_encoded-IsConsistent server client_id client (ok bytes) h f =
    let client' = sent_to server client in
    let (i, held, q) = put_client_by_id-set server.clients client_id client client' f in
    subst (λ (x : Slots). IsConsistent (record server { clients = x })) (sym q)
      (changed-IsConsistent server client.addr i client h held client' refl refl)

payload_to-IsConsistent :
    (c : Ciphers) (server : NetcodeServer) (client_id : ℕ) (payload : Bytes) (o : Option Connection)
    → IsConsistent server
    → find_client_by_id server.clients client_id ≡ o
    → IsConsistent (payload_to c server client_id payload o).0
payload_to-IsConsistent c server client_id payload none h f = h
payload_to-IsConsistent c server client_id payload (some client) h f =
    payload_encoded-IsConsistent server client_id client
      (encode_with c server (Packet.payload payload) client.sequence client.send_key) h f

pub generate_payload_packet-IsConsistent :
    (c : Ciphers) (server : NetcodeServer) (client_id : ℕ) (payload : Bytes)
    → IsConsistent server
    → IsConsistent (generate_payload_packet c server client_id payload).0
unfolding generate_payload_packet
generate_payload_packet-IsConsistent c server client_id payload h =
    elim (Bool-cases (ltb max_payload_bytes (length payload))) [
      | inl long ↦ rw long h
      | inr short ↦ rw short (payload_to-IsConsistent c server client_id payload _ h refl)
    ]

drop_client-IsConsistent :
    (c : Ciphers) (server : NetcodeServer) (client_id slot : ℕ) (client : Connection)
    → IsConsistent server
    → IsConsistent (drop_client c server client_id slot client).0
unfolding drop_client
drop_client-IsConsistent c server client_id slot client h = set-IsConsistent server slot none h tt

keep_alive_encoded-IsConsistent :
    (server : NetcodeServer) (slot : ℕ) (client : Connection) (r : Result Bytes NetcodeError)
    → IsConsistent server
    → Holds server.clients slot client
    → IsConsistent (keep_alive_encoded server slot client r).0
keep_alive_encoded-IsConsistent server slot client (err e) h held = h
keep_alive_encoded-IsConsistent server slot client (ok bytes) h held =
    changed-IsConsistent server client.addr slot client h held (sent_to server client) refl refl

-- What the slot that was looked up holds.
abbrev IsHeld : Slots → ℕ → Option Connection → Type 0
IsHeld clients slot none = Unit
IsHeld clients slot (some c) = Holds clients slot c

update_slot-IsConsistent :
    (c : Ciphers) (server : NetcodeServer) (client_id slot : ℕ) (o : Option Connection)
    → IsConsistent server
    → IsHeld server.clients slot o
    → IsConsistent (update_slot c server client_id slot o).0
update_slot-IsConsistent c server client_id slot none h held = h
update_slot-IsConsistent c server client_id slot (some client) h held =
    let dropped = drop_client-IsConsistent c server client_id slot client h in
    let out =
      timed_out client.timeout_seconds client.last_packet_received_time server.current_time in
    elim (Bool-cases out) [
      | inl late ↦ rw late dropped
      | inr alive ↦ rw alive (elim (Bool-cases (is_ended client.state)) [
        | inl ended ↦ rw ended dropped
        | inr going ↦
            rw going
              (elim (Bool-cases
                (leb (client.last_packet_send_time + send_rate) server.current_time)) [
                  | inl due ↦ rw due (
                      keep_alive_encoded-IsConsistent server slot client
                        (encode_with c server
                          (Packet.keep_alive (slot % 2 ^ 32) (server.max_clients % 2 ^ 32))
                          client.sequence client.send_key)
                        h held)
                  | inr early ↦ rw early h
                ])
      ])
    ]

drop_slot-IsConsistent :
    (c : Ciphers) (server : NetcodeServer) (client_id slot : ℕ) (o : Option Connection)
    → IsConsistent server
    → IsConsistent (drop_slot c server client_id slot o).0
drop_slot-IsConsistent c server client_id slot none h = h
drop_slot-IsConsistent c server client_id slot (some client) h =
    drop_client-IsConsistent c server client_id slot client h

get_or-IsHeld : (clients : Slots) (slot : ℕ) → IsHeld clients slot (get_or clients slot none)
get_or-IsHeld clients slot = go clients slot _ refl
  where
    go :
        (clients : Slots) (slot : ℕ) (o : Option Connection)
        → get_or clients slot none ≡ o
        → IsHeld clients slot o
    go clients slot none e = tt
    go [] slot (some c) e = absurd (cc e)
    go (x ∷ clients) zero (some c) e = ap some e
    go (x ∷ clients) (suc slot) (some c) e = go clients slot (some c) e

pub update_client-IsConsistent :
    (c : Ciphers) (server : NetcodeServer) (client_id : ℕ)
    → IsConsistent server
    → IsConsistent (update_client c server client_id).0
unfolding update_client
update_client-IsConsistent c server client_id h =
    go (find_client_slot_by_id server.clients client_id)
  where
    go : (o : Option ℕ) → IsConsistent (at_slot (update_slot c server client_id) server o).0
    go none = h
    go (some slot) =
        update_slot-IsConsistent c server client_id slot (get_or server.clients slot none) h
          (get_or-IsHeld server.clients slot)

pub disconnect-IsConsistent :
    (c : Ciphers) (server : NetcodeServer) (client_id : ℕ)
    → IsConsistent server
    → IsConsistent (disconnect c server client_id).0
unfolding disconnect
disconnect-IsConsistent c server client_id h = go (find_client_slot_by_id server.clients client_id)
  where
    go : (o : Option ℕ) → IsConsistent (at_slot (drop_slot c server client_id) server o).0
    go none = h
    go (some slot) =
        drop_slot-IsConsistent c server client_id slot (get_or server.clients slot none) h
