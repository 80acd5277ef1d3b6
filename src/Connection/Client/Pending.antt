-- ===== src/Connection/Client/Pending.antt =====
-- The pending acks of a client while it processes packets.
use renet.Base.{
  ℕ, arith, ◌+◌, ◌^◌, ◌<◌, ◌≡◌, refl, subst, List, [], ◌∷◌, ltb, inl, inr, Bool-cases, Option-cases,
}
use renet.Base.Map.{Map, get, insert, remove}
use renet.Base.Map.Entries.{Entries, Entries-remove, Entries-get}
use renet.Base.Outcome.{Outcome, returns, panics, unwrap, ◌>>=◌, Result, ok, err}
use renet.Error.{
  DisconnectReason, ChannelError, SerializationError, packet_deserialization,
  received_invalid_channel_id, receive_channel_error,
}
use renet.Packet.{
  Payload, Packet, small_reliable, small_unreliable, unreliable_slice, reliable_slice, ack,
  sequence,
}
use renet.Packet.Wire.{Octets, HasBounds}
use renet.Packet.Format.Bounds.{IsSane, from_bytes-IsSane}
use renet.Packet.Codec.{Codec, packet_codec}
use renet.Channel.Reliable
use renet.Channel.Unreliable
use renet.Channel.Reliable.Receive.{ReceiveChannelReliable}
use renet.Channel.Unreliable.Receive.{ReceiveChannelUnreliable}
use renet.Channel.Reliable.Send.{SendChannelReliable}
use renet.Connection.Acks.{add_pending_ack}
use renet.Connection.Acks.Ranges.{IsWellFormed}
use renet.Connection.Acks.Add.{add_pending_ack-IsWellFormed}
use renet.Connection.Acks.Largest.{acked_largest-IsWellFormed}
use renet.Connection.Process.{
  PacketSentInfo, no_info, reliable_messages, reliable_slice_message, ack_info, process_messages,
  process_reliable_ack,
}
use renet.Connection.Client.{RenetClient, is_disconnected, disconnect_with_reason}
use renet.Connection.Client.Receiving.{
  reliable_result, unreliable_result, new_acks, acked_info, process_ack, process_acks,
  process_parsed, process_packet,
}

-- The largest sequence that an ack packet acked has a successor.
abbrev pub IsBounded : PacketSentInfo → Type 0
IsBounded (ack_info largest) = largest + 1 < 2 ^ 64
IsBounded (reliable_messages _ _) = Unit {0}
IsBounded (reliable_slice_message _ _ _) = Unit {0}
IsBounded no_info = Unit {0}

pub record PendingInv (c : RenetClient) : Type 0 where
  pub pending : IsWellFormed c.pending_acks
  pub bounded : Entries (λ s p. IsBounded p.info) c.sent_packets

disconnect-PendingInv :
    (c : RenetClient) (r : DisconnectReason)
    → PendingInv c
    → PendingInv (disconnect_with_reason c r)
unfolding disconnect_with_reason
disconnect-PendingInv c r v = elim (Bool-cases (is_disconnected c)) [
  | inl gone ↦ rw gone v
  | inr here ↦ rw here (record { pending = v.pending; bounded = v.bounded })
]

reliable_result-PendingInv :
    (c : RenetClient) (id : ℕ) (r : ReceiveChannelReliable × Result (Unit {0}) ChannelError)
    → PendingInv c
    → PendingInv (reliable_result c id r)
unfolding reliable_result
reliable_result-PendingInv c id (ch, ok _) v = record { pending = v.pending; bounded = v.bounded }
reliable_result-PendingInv c id (ch, err e) v =
    disconnect-PendingInv _ (receive_channel_error id e)
      (record { pending = v.pending; bounded = v.bounded })

unreliable_result-PendingInv :
    (c : RenetClient) (id : ℕ) (r : ReceiveChannelUnreliable × Result (Unit {0}) ChannelError)
    → PendingInv c
    → PendingInv (unreliable_result c id r)
unfolding unreliable_result
unreliable_result-PendingInv c id (ch, ok _) v = record { pending = v.pending; bounded = v.bounded }
unreliable_result-PendingInv c id (ch, err e) v =
    disconnect-PendingInv _ (receive_channel_error id e)
      (record { pending = v.pending; bounded = v.bounded })

-- The call, if it returns, returns a client with the invariant.
abbrev Safe : Outcome RenetClient → Type 0
Safe (returns c) = PendingInv c
Safe panics = Unit {0}

Safe-bind :
    {A : Type 0} (m : Outcome A) (f : A → Outcome RenetClient)
    → ((a : A) → Safe (f a))
    → Safe (m >>= f)
Safe-bind (returns a) f h = h a
Safe-bind panics f h = tt

Safe-then :
    (m : Outcome RenetClient) (f : RenetClient → Outcome RenetClient)
    → Safe m
    → ((c : RenetClient) → PendingInv c → Safe (f c))
    → Safe (m >>= f)
Safe-then (returns a) f v h = h a v
Safe-then panics f v h = tt

with_channel :
    (c : RenetClient) (channels : Map SendChannelReliable)
    → PendingInv c
    → PendingInv (record c { send_reliable_channels = channels })
with_channel c channels v = record { pending = v.pending; bounded = v.bounded }

acked_info-Safe :
    (c : RenetClient) (i : PacketSentInfo) → PendingInv c → IsBounded i → Safe (acked_info c i)
unfolding acked_info
acked_info-Safe c (reliable_messages id ms) v b =
    Safe-bind (unwrap (get c.send_reliable_channels id)) _ (λ ch.
      Safe-bind (process_reliable_ack ch (reliable_messages id ms)) _
        (λ ch'. with_channel c (insert c.send_reliable_channels id ch') v))
acked_info-Safe c (reliable_slice_message id m s) v b =
    Safe-bind (unwrap (get c.send_reliable_channels id)) _ (λ ch.
      Safe-bind (process_reliable_ack ch (reliable_slice_message id m s)) _
        (λ ch'. with_channel c (insert c.send_reliable_channels id ch') v))
acked_info-Safe c (ack_info l) v b = record {
  pending = acked_largest-IsWellFormed c.pending_acks l b v.pending;
  bounded = v.bounded;
}
acked_info-Safe c no_info v b = v

process_ack-Safe : (c : RenetClient) (s : ℕ) → PendingInv c → Safe (process_ack c s)
unfolding process_ack
process_ack-Safe c s v = elim (Option-cases (get c.sent_packets s)) [
  | inl e ↦ rw (e, process_ack) tt
  | inr (p, e) ↦ elim (Bool-cases (ltb c.current_time p.sent_at)) [
    | inl early ↦ rw (e, process_ack, early) tt
    | inr late ↦
        rw (e, process_ack, late)
          (acked_info-Safe (record c { sent_packets = remove c.sent_packets s }) p.info
            (record {
              pending = v.pending;
              bounded = Entries-remove (λ s p. IsBounded p.info) c.sent_packets s v.bounded;
            })
            (Entries-get (λ s p. IsBounded p.info) c.sent_packets s p v.bounded e))
  ]
]

process_acks-Safe : (c : RenetClient) (acks : List ℕ) → PendingInv c → Safe (process_acks c acks)
unfolding process_acks
process_acks-Safe c [] v = v
process_acks-Safe c (s ∷ acks) v =
    Safe-then (process_ack c s) (λ c'. process_acks c' acks) (process_ack-Safe c s v)
      (λ c' v'. process_acks-Safe c' acks v')

invalid-Safe :
    (c : RenetClient) (id : ℕ)
    → PendingInv c
    → PendingInv (disconnect_with_reason c (received_invalid_channel_id id))
invalid-Safe c id v = disconnect-PendingInv c (received_invalid_channel_id id) v

process_parsed-Safe : (c : RenetClient) (p : Packet) → PendingInv c → Safe (process_parsed c p)
unfolding process_parsed
process_parsed-Safe c (small_reliable s id ms) v =
    elim (Option-cases (get c.receive_reliable_channels id)) [
      | inl e ↦ rw (e, process_parsed) (invalid-Safe c id v)
      | inr (ch, e) ↦
          rw (e, process_parsed) (reliable_result-PendingInv c id (process_messages ch ms) v)
    ]
process_parsed-Safe c (small_unreliable s id ms) v =
    elim (Option-cases (get c.receive_unreliable_channels id)) [
      | inl e ↦ rw (e, process_parsed) (invalid-Safe c id v)
      | inr (ch, e) ↦ rw (e, process_parsed) (record { pending = v.pending; bounded = v.bounded })
    ]
process_parsed-Safe c (reliable_slice s id slice) v =
    elim (Option-cases (get c.receive_reliable_channels id)) [
      | inl e ↦ rw (e, process_parsed) (invalid-Safe c id v)
      | inr (ch, e) ↦
          rw (e, process_parsed)
            (Safe-bind (Reliable.Receive.process_slice ch slice) _
              (λ r. reliable_result-PendingInv c id r v))
    ]
process_parsed-Safe c (unreliable_slice s id slice) v =
    elim (Option-cases (get c.receive_unreliable_channels id)) [
      | inl e ↦ rw (e, process_parsed) (invalid-Safe c id v)
      | inr (ch, e) ↦
          rw (e, process_parsed)
            (Safe-bind (Unreliable.Receive.process_slice ch slice c.current_time) _
              (λ r. unreliable_result-PendingInv c id r v))
    ]
process_parsed-Safe c (ack s ranges) v =
    Safe-bind (new_acks c.sent_packets ranges) (process_acks c) (λ acks. process_acks-Safe c acks v)

process_packet-Safe :
    (codec : Codec) (c : RenetClient) (payload : Payload)
    → ((p : Packet) → codec.decode payload ≡ ok p → sequence p + 1 < 2 ^ 64)
    → PendingInv c
    → Safe (process_packet codec c payload)
unfolding process_packet
process_packet-Safe codec c payload b v = elim (Bool-cases (is_disconnected c)) [
  | inl gone ↦ rw gone v
  | inr here ↦ rw here (go (codec.decode payload) refl)
]
  where
    go :
        (r : Result Packet SerializationError)
        → codec.decode payload ≡ r
        → Safe (elim r [
          | err e ↦ returns (disconnect_with_reason c (packet_deserialization e))
          | ok p ↦
              process_parsed
                (record c { pending_acks = add_pending_ack c.pending_acks (sequence p) })
                p
        ])
    go (err e) q = disconnect-PendingInv c (packet_deserialization e) v
    go (ok p) q =
        process_parsed-Safe
          (record c { pending_acks = add_pending_ack c.pending_acks (sequence p) }) p
          (record {
            pending = add_pending_ack-IsWellFormed c.pending_acks (sequence p) (b p q) v.pending;
            bounded = v.bounded;
          })

sane_sequence : (p : Packet) → IsSane p → sequence p + 1 < 2 ^ 64
unfolding sequence
sane_sequence (small_reliable s c ms) v = omega (arith, v)
sane_sequence (small_unreliable s c ms) v = omega (arith, v)
sane_sequence (unreliable_slice s c slice) v = omega (arith, v.0)
sane_sequence (reliable_slice s c slice) v = omega (arith, v.0)
sane_sequence (ack s rs) v = omega (arith, v.0)

-- Whatever bytes arrive, a client that has processed them has well-formed pending acks: non-empty
-- ranges in ascending order with gaps between them. Varints have 62 bits.
pub process_packet-PendingInv :
    (o : Octets) (c c' : RenetClient) (payload : Payload)
    → HasBounds o
    → PendingInv c
    → process_packet (packet_codec o) c payload ≡ returns c'
    → PendingInv c'
process_packet-PendingInv o c c' payload b v e = subst Safe e (
    process_packet-Safe (packet_codec o) c payload
      (λ p d. sane_sequence p (from_bytes-IsSane o b payload p d)) v)
