-- ===== src/Netcode/Client/Protocol.antt =====
-- The states of a client of renetcode/src/client.rs, as the protocol has them.
use renet.Base.{
  ℕ, suc, ◌≡◌, refl, sym, ap, subst, true, Option, none, some, arith, leb, Bool-cases, inl, inr,
}
use renet.Base.Outcome.{
  returns, WhenReturns, WhenReturns-all, WhenReturns-bind, WhenReturns-imp, Result, ok, err,
}
use renet.Packet.{Bytes}
use renet.Netcode.Limits.{as_secs}
use renet.Base.Word.{sub_u64}
use renet.Netcode.Error.{
  connect_token_expired, connection_timed_out, connection_denied, disconnected_by_server,
  NetcodeError,
}
use renet.Netcode.Crypto.{Ciphers}
use renet.Netcode.Packet.{Packet}
use renet.Netcode.Packet.Decode.{Decoded, decode}
use renet.Netcode.Address.{SocketAddr}
use renet.Netcode.Client.{
  ClientState, disconnected, sending_connection_request, sending_connection_response, connected,
  NetcodeClient, is_connecting, sub_duration, encode_packet, Sent,
}
use renet.Netcode.Client.Receive.{handle, handle_decoded, process_packet}
use renet.Netcode.Client.Update.{
  generate_payload_packet, timeout_reason, next_address, next_server, has_timed_out,
  update_connecting, update_connected, update_in, later, update_internal_state, generate_packet,
  send_packet, packet_of, encoded_or_nothing, payload_sent, update_after, update, is_due,
}

-- What a packet can do.
pub data OnPacket : ClientState → ClientState → Type 0 where
  ignored : {s : ClientState} → OnPacket s s
  challenged : OnPacket sending_connection_request sending_connection_response
  accepted : OnPacket sending_connection_response connected
  denied : {s : ClientState} → is_connecting s ≡ true → OnPacket s (disconnected connection_denied)
  dropped : OnPacket connected (disconnected disconnected_by_server)

-- What time can do.
pub data OnTime : ClientState → ClientState → Type 0 where
  stays : {s : ClientState} → OnTime s s
  expired :
      {s : ClientState} → is_connecting s ≡ true → OnTime s (disconnected connect_token_expired)
  unanswered :
      {s : ClientState} → is_connecting s ≡ true → OnTime s (disconnected (timeout_reason s))
  retried : {s : ClientState} → is_connecting s ≡ true → OnTime s sending_connection_request
  lost : OnTime connected (disconnected connection_timed_out)

ruleset packet_edges = (ignored, challenged, accepted, denied, dropped)

handle-OnPacket :
    (p : Packet) (s : ClientState) (client : NetcodeClient)
    → client.state ≡ s
    → OnPacket s (handle p s client).0.state
unfolding handle
handle-OnPacket p s client e = grind (arith, packet_edges)

handle_decoded-OnPacket :
    (client : NetcodeClient) (d : Decoded) → OnPacket client.state (handle_decoded client d).0.state
handle_decoded-OnPacket client d = go d.result
  where
    go :
        (r : Result (ℕ × Packet) NetcodeError)
        → OnPacket client.state
            (handle_decoded client
              (record { result = r; replay_protection = d.replay_protection })).0.state
    go (err e) = ignored
    go (ok (_, packet)) = handle-OnPacket packet client.state _ refl

-- The edge leads to the state of the first component.
abbrev Hears : {A : Type 0} → ClientState → NetcodeClient × A → Type 0
Hears s x = OnPacket s x.0.state

abbrev Follows : {A : Type 0} → ClientState → NetcodeClient × A → Type 0
Follows s x = OnTime s x.0.state

pub process_packet-OnPacket :
    (c : Ciphers) (client : NetcodeClient) (buffer : Bytes)
    → WhenReturns (Hears client.state) (process_packet c client buffer)
unfolding process_packet
process_packet-OnPacket c client buffer =
    WhenReturns-all (Hears client.state) (decode c buffer _ _ _)
      (λ d. returns (handle_decoded client d)) (λ d. handle_decoded-OnPacket client d)

unchanged : {s t : ClientState} → t ≡ s → OnTime s t
unchanged {s} e = subst (λ t. OnTime s t) (sym e) stays

payload_sent-state :
    (client : NetcodeClient) (r : Result Bytes NetcodeError)
    → (payload_sent client r).0.state ≡ client.state
payload_sent-state client (err e) = refl
payload_sent-state client (ok bytes) = refl

pub generate_payload_packet-state :
    (c : Ciphers) (client : NetcodeClient) (payload : Bytes)
    → (generate_payload_packet c client payload).0.state ≡ client.state
unfolding generate_payload_packet
generate_payload_packet-state c client payload =
    ground (arith, payload_sent-state client (encode_packet c client (Packet.payload payload)))

next_address-OnTime :
    (s : ClientState) (client : NetcodeClient) (a : Option SocketAddr)
    → is_connecting s ≡ true
    → client.state ≡ disconnected (timeout_reason s)
    → OnTime s (next_address client a).0.state
next_address-OnTime s client none h e = subst (λ t. OnTime s t) (sym e) (unanswered h)
next_address-OnTime s client (some a) h e = retried h

next_server-OnTime :
    (client : NetcodeClient)
    → is_connecting client.state ≡ true
    → OnTime client.state (next_server client).0.state
unfolding next_server
next_server-OnTime client h = elim (Bool-cases (leb 32 (suc client.server_addr_index))) [
  | inl last ↦ rw last (unanswered h)
  | inr more ↦ rw more (next_address-OnTime client.state _ _ h refl)
]

update_connecting-Follows :
    (client : NetcodeClient)
    → is_connecting client.state ≡ true
    → WhenReturns (Follows client.state) (update_connecting client)
unfolding update_connecting
update_connecting-Follows client h =
    WhenReturns-all (Follows client.state)
      (sub_duration client.current_time client.connect_start_time) _
      (λ connecting.
        let expire_seconds =
          sub_u64 client.connect_token.expire_timestamp client.connect_token.create_timestamp in
        elim (Bool-cases (leb expire_seconds (as_secs connecting))) [
          | inl over ↦ rw over (expired h)
          | inr before ↦ rw before (elim (Bool-cases (has_timed_out client)) [
            | inl out ↦ rw out (next_server-OnTime client h)
            | inr fine ↦ rw fine stays
          ])
        ])

update_connected-OnTime :
    (client : NetcodeClient)
    → client.state ≡ connected
    → OnTime connected (update_connected client).0.state
unfolding update_connected
update_connected-OnTime client e = elim (Bool-cases (has_timed_out client)) [
  | inl out ↦ rw out lost
  | inr fine ↦ rw fine (unchanged e)
]

update_in-Follows :
    (s : ClientState) (client : NetcodeClient)
    → client.state ≡ s
    → WhenReturns (Follows s) (update_in s client)
update_in-Follows sending_connection_request client e =
    subst (λ s. WhenReturns (Follows s) (update_connecting client)) e
      (update_connecting-Follows client (ap is_connecting e))
update_in-Follows sending_connection_response client e =
    subst (λ s. WhenReturns (Follows s) (update_connecting client)) e
      (update_connecting-Follows client (ap is_connecting e))
update_in-Follows connected client e = update_connected-OnTime client e
update_in-Follows (disconnected reason) client e = unchanged e

encoded_or_nothing-state :
    (client : NetcodeClient) (r : Result Bytes NetcodeError)
    → (encoded_or_nothing client r).0.state ≡ client.state
encoded_or_nothing-state client (err e) = refl
encoded_or_nothing-state client (ok bytes) = refl

send_packet-state :
    (c : Ciphers) (client : NetcodeClient) (p : Option Packet)
    → (send_packet c client p).0.state ≡ client.state
send_packet-state c client none = refl
send_packet-state c client (some p) = encoded_or_nothing-state _ _

generate_packet-state :
    (c : Ciphers) (client : NetcodeClient)
    → WhenReturns
        (λ (x : NetcodeClient × Option Sent). x.0.state ≡ client.state)
        (generate_packet c client)
unfolding generate_packet
generate_packet-state c client =
    WhenReturns-all _ (is_due client.last_packet_send_time client.current_time) _ (λ due.
      elim (Bool-cases due) [
        | inl now ↦ rw now (send_packet-state c client (packet_of client client.state))
        | inr wait ↦ rw wait refl
      ])

update_after-Follows :
    (c : Ciphers) (s : ClientState) (x : NetcodeClient × Result Unit NetcodeError)
    → Follows s x
    → WhenReturns (Follows s) (update_after c x)
update_after-Follows c s (client, err e) h = h
update_after-Follows c s (client, ok _) h =
    WhenReturns-imp (λ (x : NetcodeClient × Option Sent). x.0.state ≡ client.state) (Follows s)
      (generate_packet c client) (generate_packet-state c client)
      (λ x e. subst (λ t. OnTime s t) (sym e) h)

pub update-OnTime :
    (c : Ciphers) (client : NetcodeClient) (duration : ℕ)
    → WhenReturns (Follows client.state) (update c client duration)
unfolding update update_internal_state
update-OnTime c client duration =
    WhenReturns-bind (Follows client.state) (Follows client.state)
      (update_in client.state (later client duration)) (update_after c)
      (update_in-Follows client.state (later client duration) refl)
      (λ x h. update_after-Follows c client.state x h)
