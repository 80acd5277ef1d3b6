-- ===== src/Connection/Client/Status.antt =====
-- The connection status of a client of renet/src/remote_connection.rs over sequences of its calls.
use renet.Base.{
  ℕ, ◌+◌, ◌≡◌, refl, true, Option, none, some, List, [], ◌∷◌, ◌++◌, ltb, Bool-cases, inl, inr,
  arith,
}
use renet.Base.Outcome.{Outcome, returns, ◌>>=◌, WhenReturns, WhenReturns-all, WhenReturns-bind}
use renet.Error.{DisconnectReason}
use renet.Packet.{Bytes, Payload}
use renet.Packet.Codec.{Codec}
use renet.Connection.Client.{
  RenetClient, is_disconnected, disconnect_reason, set_connected, set_connecting,
  disconnect_with_reason, disconnect, disconnect_due_to_transport,
}
use renet.Connection.Client.Sending.{send_message, get_packets_to_send}
use renet.Connection.Client.Receiving.{process_packet, receive_message}
use renet.Connection.Client.Ticks.{max_duration, discard_slices, lost_packets, update}

-- The calls that change a client.
pub data ClientCall : Type 0 where
  sends : (channel_id : ℕ) → Bytes → ClientCall
  receives : (channel_id : ℕ) → ClientCall
  arrives : Payload → ClientCall
  flushes : ClientCall
  ticks : (duration : ℕ) → ClientCall
  connects : ClientCall
  starts_connecting : ClientCall
  ends : DisconnectReason → ClientCall
  closes : ClientCall
  transport_fails : ClientCall

-- The client after a call, the messages that it gave to the application and its packets.
abbrev pub After : Type 0
After = RenetClient × List Bytes × List Payload

abbrev message_list : Option Bytes → List Bytes
message_list none = []
message_list (some m) = m ∷ []

module _ (varint_len : ℕ → ℕ) (codec : Codec) where
  unfoldable pub call : RenetClient → ClientCall → Outcome After
  call c (sends channel_id message) =
      send_message c channel_id message >>= λ c'. returns (c', [], [])
  call c (receives channel_id) =
      receive_message c channel_id >>= λ (c', m). returns (c', message_list m, [])
  call c (arrives payload) = process_packet codec c payload >>= λ c'. returns (c', [], [])
  call c flushes = get_packets_to_send varint_len codec c >>= λ (c', ps). returns (c', [], ps)
  call c (ticks duration) = update c duration >>= λ c'. returns (c', [], [])
  call c connects = returns (set_connected c, [], [])
  call c starts_connecting = returns (set_connecting c, [], [])
  call c (ends reason) = returns (disconnect_with_reason c reason, [], [])
  call c closes = returns (disconnect c, [], [])
  call c transport_fails = returns (disconnect_due_to_transport c, [], [])

  unfoldable pub run : RenetClient → List ClientCall → Outcome After
  run c [] = returns (c, [], [])
  run c (k ∷ ks) = call c k >>= λ (c', given, sent).
      run c' ks >>= λ (c'', given', sent'). returns (c'', given ++ given', sent ++ sent')

-- Disconnected for the reason, with no message given and no packet to send.
abbrev pub IsOver : DisconnectReason → After → Type 0
IsOver reason x = (disconnect_reason x.0 ≡ some reason) × (x.1 ≡ []) × (x.2 ≡ [])

reason-is_disconnected :
    (c : RenetClient) (reason : DisconnectReason)
    → disconnect_reason c ≡ some reason
    → is_disconnected c ≡ true
unfolding disconnect_reason is_disconnected
reason-is_disconnected c reason e = ground (arith, e)

update-IsOver :
    (c : RenetClient) (reason : DisconnectReason) (duration : ℕ)
    → disconnect_reason c ≡ some reason
    → WhenReturns (IsOver reason) (update c duration >>= λ c'. returns (c', [], []))
unfolding update disconnect_reason
update-IsOver c reason duration e =
    let now = c.current_time + duration in
    WhenReturns-bind (λ (c' : RenetClient). disconnect_reason c' ≡ some reason) (IsOver reason)
      (update c duration) (λ c'. returns (c', [], []))
      (elim (Bool-cases (ltb now max_duration)) [
        | inl early ↦ rw early (
            WhenReturns-all (λ (c' : RenetClient). disconnect_reason c' ≡ some reason)
              (discard_slices now c.receive_unreliable_channels) _
              (λ channels. WhenReturns-all _ (lost_packets now c.sent_packets) _ (λ lost. e)))
        | inr late ↦ rw late tt
      ])
      (λ c' e. (e, refl, refl))

module _ (varint_len : ℕ → ℕ) (codec : Codec) where
  call-IsOver :
      (c : RenetClient) (reason : DisconnectReason) (k : ClientCall)
      → disconnect_reason c ≡ some reason
      → WhenReturns (IsOver reason) (call varint_len codec c k)
  unfolding call send_message receive_message process_packet get_packets_to_send set_connected
      set_connecting disconnect disconnect_due_to_transport disconnect_with_reason
  call-IsOver c reason (sends channel_id m) e =
      rw (reason-is_disconnected c reason e) (e, refl, refl)
  call-IsOver c reason (receives channel_id) e =
      rw (reason-is_disconnected c reason e) (e, refl, refl)
  call-IsOver c reason (arrives payload) e = rw (reason-is_disconnected c reason e) (e, refl, refl)
  call-IsOver c reason flushes e = rw (reason-is_disconnected c reason e) (e, refl, refl)
  call-IsOver c reason (ticks duration) e = update-IsOver c reason duration e
  call-IsOver c reason connects e = rw (reason-is_disconnected c reason e) (e, refl, refl)
  call-IsOver c reason starts_connecting e = rw (reason-is_disconnected c reason e) (e, refl, refl)
  call-IsOver c reason (ends other) e = rw (reason-is_disconnected c reason e) (e, refl, refl)
  call-IsOver c reason closes e = rw (reason-is_disconnected c reason e) (e, refl, refl)
  call-IsOver c reason transport_fails e = rw (reason-is_disconnected c reason e) (e, refl, refl)

  -- A client that is disconnected stays so for its first reason, through any sequence of its calls
  -- that returns: packets that arrive, time that passes, messages to send and to receive, later
  -- disconnections and calls of the transport layer. It gives no message and has no packet to send.
  pub run-IsOver :
      (c : RenetClient) (reason : DisconnectReason) (ks : List ClientCall)
      → disconnect_reason c ≡ some reason
      → WhenReturns (IsOver reason) (run varint_len codec c ks)
  unfolding run
  run-IsOver c reason [] e = (e, refl, refl)
  run-IsOver c reason (k ∷ ks) e =
      WhenReturns-bind (IsOver reason) (IsOver reason) (call varint_len codec c k) _
        (call-IsOver c reason k e)
        (λ (c', given, sent) o.
          WhenReturns-bind (IsOver reason) (IsOver reason) (run varint_len codec c' ks) _
            (run-IsOver c' reason ks o.0)
            (λ (c'', given', sent') p. (p.0, cc (o.1, p.1), cc (o.2, p.2))))
