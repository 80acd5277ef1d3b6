-- ===== src/Netcode/Client/Runs.antt =====
-- Sequences of calls of a client of renetcode/src/client.rs.
use renet.Base.{ℕ, ◌≡◌, ◌≢◌, refl, ap, ◌∙◌, true, List, [], ◌∷◌}
use renet.Base.Outcome.{Outcome, returns, ◌>>=◌, WhenReturns, WhenReturns-bind, WhenReturns-imp}
use renet.Packet.{Bytes}
use renet.Netcode.Crypto.{Ciphers}
use renet.Netcode.Client.{
  ClientState, disconnected, sending_connection_request, sending_connection_response, connected,
  NetcodeClient, is_connecting, is_disconnected, disconnect,
}
use renet.Netcode.Client.Receive.{process_packet}
use renet.Netcode.Client.Update.{generate_payload_packet, update}
use renet.Netcode.Client.Protocol.{
  OnPacket, ignored, challenged, accepted, denied, dropped, OnTime, stays, expired, unanswered,
  retried, lost, process_packet-OnPacket, generate_payload_packet-state, update-OnTime,
}
use renet.Netcode.Error.{disconnected_by_client}

-- A call of the client: a packet that arrives, time that passes, a payload to send, the end.
pub data Call : Type 0 where
  receive : Bytes → Call
  tick : ℕ → Call
  send : Bytes → Call
  close : Call

abbrev client_of : {A : Type 0} → Outcome (NetcodeClient × A) → Outcome NetcodeClient
client_of o = o >>= λ x. returns (x.0)

-- The client after the call.
unfoldable pub call : Ciphers → NetcodeClient → Call → Outcome NetcodeClient
call c client (receive buffer) = client_of (process_packet c client buffer)
call c client (tick duration) = client_of (update c client duration)
call c client (send payload) = returns ((generate_payload_packet c client payload).0)
call c client close = returns ((disconnect c client).0)

unfoldable pub run : Ciphers → NetcodeClient → List Call → Outcome NetcodeClient
run c client [] = returns client
run c client (k ∷ ks) = call c client k >>= λ client. run c client ks

-- One edge of the protocol for every call, from the one state to the other. An edge belongs to a kind
-- of call: what a packet can do, what time can do, what the client itself can do.
abbrev pub Allows : Call → ClientState → ClientState → Type 0
Allows (receive buffer) s t = OnPacket s t
Allows (tick duration) s t = OnTime s t
Allows (send payload) s t = t ≡ s
Allows close s t = t ≡ disconnected disconnected_by_client

pub data Trace : ClientState → List Call → ClientState → Type 0 where
  here : {s : ClientState} → Trace s [] s
  step :
      {s t u : ClientState} {k : Call} {ks : List Call}
      → Allows k s t
      → Trace t ks u
      → Trace s (k ∷ ks) u

client_of-When :
    {A : Type 0} (P : ClientState → Type 0) (o : Outcome (NetcodeClient × A))
    → WhenReturns (λ (x : NetcodeClient × A). P x.0.state) o
    → WhenReturns (λ (client : NetcodeClient). P client.state) (client_of o)
client_of-When P o h =
    WhenReturns-bind (λ (x : NetcodeClient × _). P x.0.state)
      (λ (client : NetcodeClient). P client.state) o (λ x. returns (x.0)) h (λ x e. e)

call-Allows :
    (c : Ciphers) (client : NetcodeClient) (k : Call)
    → WhenReturns
        (λ (client' : NetcodeClient). Allows k client.state client'.state)
        (call c client k)
unfolding call disconnect
call-Allows c client (receive buffer) =
    client_of-When (OnPacket client.state) _ (process_packet-OnPacket c client buffer)
call-Allows c client (tick duration) =
    client_of-When (OnTime client.state) _ (update-OnTime c client duration)
call-Allows c client (send payload) = generate_payload_packet-state c client payload
call-Allows c client close = refl

-- A sequence of calls that returns takes the client along the edges of the protocol, one edge for
-- each call and of the call's kind. A packet takes a client that sends connection requests to the
-- sending of responses, and only from there to being connected, or a connecting client to a denied
-- one and a connected one to one that the server dropped. Time takes a connecting client to an
-- expired token, to the next server or to the timeout of its state, and a connected one to the
-- timeout. Both may also leave the state. A payload leaves it, and `disconnect` ends in the client's
-- own reason.
pub run-Trace :
    (c : Ciphers) (client : NetcodeClient) (ks : List Call)
    → WhenReturns
        (λ (client' : NetcodeClient). Trace client.state ks client'.state)
        (run c client ks)
unfolding run
run-Trace c client [] = here
run-Trace c client (k ∷ ks) =
    WhenReturns-bind (λ (client' : NetcodeClient). Allows k client.state client'.state)
      (λ (client' : NetcodeClient). Trace client.state (k ∷ ks) client'.state) (call c client k)
      (λ client. run c client ks) (call-Allows c client k)
      (λ client' e.
        WhenReturns-imp (λ (x : NetcodeClient). Trace client'.state ks x.state)
          (λ (x : NetcodeClient). Trace client.state (k ∷ ks) x.state) (run c client' ks)
          (run-Trace c client' ks) (λ x es. step e es))

not_both : (s : ClientState) → is_connecting s ≡ true → is_disconnected s ≢ true
not_both (disconnected _) h = λ e. absurd (cc h)
not_both sending_connection_request h = λ e. absurd (cc e)
not_both sending_connection_response h = λ e. absurd (cc e)
not_both connected h = λ e. absurd (cc e)

disconnected-OnPacket :
    {s t : ClientState} → OnPacket s t → is_disconnected s ≡ true → is_disconnected t ≡ true
disconnected-OnPacket ignored h = h
disconnected-OnPacket challenged h = absurd (cc h)
disconnected-OnPacket accepted h = absurd (cc h)
disconnected-OnPacket (denied _) h = refl
disconnected-OnPacket dropped h = refl

disconnected-OnTime :
    {s t : ClientState} → OnTime s t → is_disconnected s ≡ true → is_disconnected t ≡ true
disconnected-OnTime stays h = h
disconnected-OnTime (expired _) h = refl
disconnected-OnTime (unanswered _) h = refl
disconnected-OnTime {s} (retried e) h = absurd (not_both s e h)
disconnected-OnTime lost h = refl

disconnected-Trace :
    {s t : ClientState} {ks : List Call}
    → Trace s ks t
    → is_disconnected s ≡ true
    → is_disconnected t ≡ true
disconnected-Trace here h = h
disconnected-Trace (step {k = receive buffer} e es) h =
    disconnected-Trace es (disconnected-OnPacket e h)
disconnected-Trace (step {k = tick duration} e es) h =
    disconnected-Trace es (disconnected-OnTime e h)
disconnected-Trace (step {k = send payload} e es) h =
    disconnected-Trace es (ap is_disconnected e ∙ h)
disconnected-Trace (step {k = close} e es) h = disconnected-Trace es (ap is_disconnected e)

-- A sequence of calls that returns leaves a disconnected client disconnected.
pub run-is_disconnected :
    (c : Ciphers) (client : NetcodeClient) (ks : List Call)
    → is_disconnected client.state ≡ true
    → WhenReturns
        (λ (client' : NetcodeClient). is_disconnected client'.state ≡ true)
        (run c client ks)
run-is_disconnected c client ks h =
    WhenReturns-imp (λ (x : NetcodeClient). Trace client.state ks x.state) _ (run c client ks)
      (run-Trace c client ks) (λ x es. disconnected-Trace es h)
