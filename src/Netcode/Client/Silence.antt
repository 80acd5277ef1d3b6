-- ===== src/Netcode/Client/Silence.antt =====
-- A client of renetcode/src/client.rs that hears nothing from its servers.
use renet.Base.{
  ℕ, suc, ◌+◌, ◌-◌, ◌<◌, ◌≤◌, ◌≡◌, ◌⊎◌, inl, inr, refl, sym, ap, subst, true, false, Option, none,
  some, List, [], ◌∷◌, map, All, length, ltb, leb, arith, Bool-cases,
}
use renet.Base.Outcome.{returns, Returns, Returns-bind, Returns-imp, Result, ok, err}
use renet.Base.Word.{sub_u64}
use renet.Packet.{Bytes}
use renet.Netcode.Limits.{from_secs, as_secs, send_rate}
use renet.Netcode.Error.{NetcodeError}
use renet.Netcode.Crypto.{Ciphers}
use renet.Netcode.Address.{SocketAddr}
use renet.Netcode.Token.{ConnectToken}
use renet.Netcode.Packet.{Packet}
use renet.Netcode.Client.{
  ClientState, disconnected, sending_connection_request, sending_connection_response, connected,
  NetcodeClient, is_disconnected, Sent, encode_packet,
}
use renet.Netcode.Client.Update.{
  has_timeout, timed_out, has_timed_out, Updated, next_address, next_server, update_connecting,
  update_connected, update_in, later, update_internal_state, is_due, encoded_or_nothing,
  send_packet, generate_packet, update_after, update,
}
use renet.Netcode.Client.Runs.{tick, call, run}

abbrev SentBefore : Option ℕ → ℕ → Type 0
SentBefore none now = Unit
SentBefore (some t) now = t ≤ now

-- The connection started, and the last packet was sent, in the past.
abbrev pub IsTimely : NetcodeClient → Type 0
IsTimely client =
    (client.connect_start_time ≤ client.current_time)
    × SentBefore client.last_packet_send_time client.current_time

-- The client is at this server address, and the last packet arrived in the past.
abbrev IsTrying : ConnectToken → ℕ → NetcodeClient → Type 0
IsTrying token i client =
    (client.connect_token ≡ token)
    × (client.server_addr_index ≡ i)
    × (i < 32)
    × (client.last_packet_received_time ≤ client.current_time)

abbrev Settled : ConnectToken → ℕ → NetcodeClient → Type 0
Settled token i client =
    IsTimely client × ((is_disconnected client.state ≡ true) ⊎ IsTrying token i client)

due-Returns : (t : Option ℕ) (now : ℕ) → SentBefore t now → Returns (λ _. Unit {0}) (is_due t now)
unfolding is_due
due-Returns none now h = (true, refl, tt)
due-Returns (some t) now h =
    let past : ltb now t ≡ false = ground (arith, h) in (leb send_rate (now - t), rw past refl, tt)

encoded-Settled :
    (token : ConnectToken) (i : ℕ) (client : NetcodeClient) (r : Result Bytes NetcodeError)
    → Settled token i client
    → Settled token i (encoded_or_nothing client r).0
encoded-Settled token i client (err e) h = h
encoded-Settled token i client (ok bytes) h = h

send_packet-Settled :
    (c : Ciphers) (token : ConnectToken) (i : ℕ) (client : NetcodeClient) (p : Option Packet)
    → Settled token i client
    → Settled token i (send_packet c client p).0
send_packet-Settled c token i client none h = h
send_packet-Settled c token i client (some p) h =
    let client' = record client { last_packet_send_time = some client.current_time } in
    encoded-Settled token i client' (encode_packet c client' p) ((h.0.0, omega arith), h.1)

generate_packet-Settled :
    (c : Ciphers) (token : ConnectToken) (i : ℕ) (client : NetcodeClient)
    → Settled token i client
    → Returns (λ (x : NetcodeClient × Option Sent). Settled token i x.0) (generate_packet c client)
unfolding generate_packet
generate_packet-Settled c token i client h =
    Returns-bind (λ _. Unit {0}) (λ (x : NetcodeClient × Option Sent). Settled token i x.0)
      (is_due client.last_packet_send_time client.current_time) _
      (due-Returns client.last_packet_send_time client.current_time (h.0.1))
      (λ due _. elim (Bool-cases due) [
        | inl now ↦ (_, refl, rw now (send_packet-Settled c token i client _ h))
        | inr wait ↦ (_, refl, rw wait h)
      ])

update_after-Settled :
    (c : Ciphers) (token : ConnectToken) (i : ℕ) (x : Updated)
    → Settled token i x.0
    → Returns (λ (x : NetcodeClient × Option Sent). Settled token i x.0) (update_after c x)
update_after-Settled c token i (client, err e) h = (_, refl, h)
update_after-Settled c token i (client, ok _) h = generate_packet-Settled c token i client h

next_address-Settled :
    (token : ConnectToken) (i : ℕ) (client : NetcodeClient) (a : Option SocketAddr)
    → IsTimely client
    → is_disconnected client.state ≡ true
    → client.connect_token ≡ token
    → client.server_addr_index ≡ i
    → i < 32
    → Settled token i (next_address client a).0
next_address-Settled token i client none t d e f h = (t, inl d)
next_address-Settled token i client (some a) t d e f h =
    ((omega arith, tt), inr (e, f, h, omega arith))

next_server-Settled :
    (token : ConnectToken) (i : ℕ) (client : NetcodeClient)
    → IsTimely client
    → IsTrying token i client
    → Settled token (suc i) (next_server client).0
unfolding next_server
next_server-Settled token i client t (e, f, h, l) =
    elim (Bool-cases (leb 32 (suc client.server_addr_index))) [
      | inl last ↦ rw last (t, inl refl)
      | inr more ↦
          rw more
            (next_address-Settled token (suc i) _ _ t refl e (ap suc f) (ground (arith, more, f)))
    ]

update_connecting-Settled :
    (token : ConnectToken) (i : ℕ) (client : NetcodeClient)
    → IsTimely client
    → IsTrying token i client
    → has_timed_out client ≡ true
    → Returns (λ (x : Updated). Settled token (suc i) x.0) (update_connecting client)
unfolding update_connecting
update_connecting-Settled token i client t trying out =
    let started : ltb client.current_time client.connect_start_time ≡ false = ground (arith, t.0) in
    let connecting = client.current_time - client.connect_start_time in
    let expire_seconds =
      sub_u64 client.connect_token.expire_timestamp client.connect_token.create_timestamp in
    rw started (elim (Bool-cases (leb expire_seconds (as_secs connecting))) [
      | inl over ↦ (_, refl, rw over (t, inl refl))
      | inr before ↦ (_, refl, rw (before, out) (next_server-Settled token i client t trying))
    ])

update_in-Settled :
    (token : ConnectToken) (i : ℕ) (s : ClientState) (client : NetcodeClient)
    → client.state ≡ s
    → IsTimely client
    → IsTrying token i client
    → has_timed_out client ≡ true
    → Returns (λ (x : Updated). Settled token (suc i) x.0) (update_in s client)
unfolding update_connected
update_in-Settled token i (disconnected reason) client e t trying out =
    (_, refl, (t, inl (ap is_disconnected e)))
update_in-Settled token i connected client e t trying out = (_, refl, rw out (t, inl refl))
update_in-Settled token i sending_connection_request client e t trying out =
    update_connecting-Settled token i client t trying out
update_in-Settled token i sending_connection_response client e t trying out =
    update_connecting-Settled token i client t trying out

sent_later : (o : Option ℕ) (now duration : ℕ) → SentBefore o now → SentBefore o (now + duration)
sent_later none now duration h = tt
sent_later (some t) now duration h = omega (arith, h)

ended-Settled :
    (token : ConnectToken) (i : ℕ) (s : ClientState) (client : NetcodeClient)
    → client.state ≡ s
    → IsTimely client
    → is_disconnected s ≡ true
    → Returns (λ (x : Updated). Settled token (suc i) x.0) (update_in s client)
ended-Settled token i (disconnected reason) client e t h =
    (_, refl, (t, inl (ap is_disconnected e)))
ended-Settled token i connected client e t h = absurd (cc h)
ended-Settled token i sending_connection_request client e t h = absurd (cc h)
ended-Settled token i sending_connection_response client e t h = absurd (cc h)

runs_out :
    (t last now duration : ℕ)
    → has_timeout t ≡ true
    → from_secs t < duration
    → last ≤ now
    → timed_out t last (now + duration) ≡ true
runs_out t last now duration on long past =
    let after : ltb (last + from_secs t) (now + duration) ≡ true = ground (arith, long, past) in
    rw (on, after) refl

-- A long silence: the client is disconnected, or it tries the next address.
update-Settled :
    (c : Ciphers) (token : ConnectToken) (i : ℕ) (client : NetcodeClient) (duration : ℕ)
    → has_timeout token.timeout_seconds ≡ true
    → from_secs token.timeout_seconds < duration
    → Settled token i client
    → Returns
        (λ (x : NetcodeClient × Option Sent). Settled token (suc i) x.0)
        (update c client duration)
unfolding update update_internal_state
update-Settled c token i client duration on long (t, state) =
    let client' = later client duration in
    let t' : IsTimely client' = (
      omega (arith, t.0),
      sent_later client.last_packet_send_time client.current_time duration t.1,
    ) in
    Returns-bind (λ (x : Updated). Settled token (suc i) x.0) _ (update_in client.state client')
      (update_after c)
      (elim state [
        | inl ended ↦ ended-Settled token i client.state client' refl t' ended
        | inr (e, f, h, l) ↦
            let out : has_timed_out client' ≡ true =
              subst
                (λ (x : ConnectToken).
                  timed_out x.timeout_seconds client.last_packet_received_time
                    (client.current_time + duration)
                  ≡ true)
                (sym e)
                (runs_out token.timeout_seconds client.last_packet_received_time client.current_time
                  duration on long l) in
            update_in-Settled token i client.state client' refl t' (e, f, h, omega (arith, l)) out
      ])
      (λ x h. update_after-Settled c token (suc i) x h)

tick-Settled :
    (c : Ciphers) (token : ConnectToken) (i : ℕ) (client : NetcodeClient) (duration : ℕ)
    → has_timeout token.timeout_seconds ≡ true
    → from_secs token.timeout_seconds < duration
    → Settled token i client
    → Returns (Settled token (suc i)) (call c client (tick duration))
unfolding call
tick-Settled c token i client duration on long h =
    Returns-bind (λ (x : NetcodeClient × Option Sent). Settled token (suc i) x.0)
      (Settled token (suc i)) (update c client duration) (λ x. returns (x.0))
      (update-Settled c token i client duration on long h) (λ x k. (x.0, refl, k))

ticks-Settled :
    (c : Ciphers) (token : ConnectToken) (i : ℕ) (client : NetcodeClient) (durations : List ℕ)
    → has_timeout token.timeout_seconds ≡ true
    → All (λ duration. from_secs token.timeout_seconds < duration) durations
    → Settled token i client
    → Returns (Settled token (length durations + i)) (run c client (map tick durations))
unfolding run
ticks-Settled c token i client [] on long h =
    (client, refl, subst (λ n. Settled token n client) (omega arith) h)
ticks-Settled c token i client (d ∷ ds) on long h =
    Returns-bind (Settled token (suc i)) (Settled token (length (d ∷ ds) + i))
      (call c client (tick d)) (λ client. run c client (map tick ds))
      (tick-Settled c token i client d on (long.0) h)
      (λ client' h'.
        subst (λ n. Returns (Settled token n) (run c client' (map tick ds))) (omega arith)
          (ticks-Settled c token (suc i) client' ds on (long.1) h'))

-- A client whose times are in the past and whose token has a timeout, to which no packet arrives
-- while it is updated at intervals that are all longer than the timeout: when the intervals and the
-- index of its server address make 32 at least, all the updates return and the client is
-- disconnected, in whatever state it was and whatever its addresses are.
pub silence-is_disconnected :
    (c : Ciphers) (client : NetcodeClient) (durations : List ℕ)
    → IsTimely client
    → client.last_packet_received_time ≤ client.current_time
    → client.server_addr_index < 32
    → has_timeout client.connect_token.timeout_seconds ≡ true
    → All (λ duration. from_secs client.connect_token.timeout_seconds < duration) durations
    → 32 ≤ length durations + client.server_addr_index
    → Returns
        (λ (x : NetcodeClient). is_disconnected x.state ≡ true)
        (run c client (map tick durations))
silence-is_disconnected c client durations t l h on long many =
    Returns-imp (Settled client.connect_token (length durations + client.server_addr_index))
      (λ (x : NetcodeClient). is_disconnected x.state ≡ true) (run c client (map tick durations))
      (ticks-Settled c client.connect_token client.server_addr_index client durations on long
        (t, inr (refl, refl, h, l)))
      (λ x s. elim (s.1) [
        | inl ended ↦ ended
        | inr (_, _, more, _) ↦ absurd (omega (arith, many, more))
      ])
