-- ===== src/Connection/Process/Arrive.antt =====
-- A genuine packet arrives at the receiver, or its ack at the sender.
use renet.Base.{ℕ, ◌≡◌, refl, ◌∙◌, List, [], ◌∷◌, arith, All, map, subst}
use renet.Base.Outcome.{
  returns, unwrap, Result, ok, err, Returns, Returns-imp, Returns-bind, >>=-returns,
}
use renet.Base.Word.{sub_u64}
use renet.Error.{ChannelError}
use renet.Packet.{
  Bytes, Packet, small_reliable, small_unreliable, unreliable_slice, reliable_slice, ack,
}
use renet.Channel.Reliable.Send.{
  SendChannelReliable, process_message_ack, process_slice_message_ack,
}
use renet.Channel.Reliable.Send.Loop.{IsMessage, Genuine}
use renet.Channel.Reliable.Send.Accounts.{SenderInv}
use renet.Channel.Reliable.Send.Acks.{
  process_message_ack-Returns, process_slice_message_ack-Returns,
}
use renet.Channel.Reliable.Receive.{ReceiveChannelReliable, process_message}
use renet.Channel.Reliable.Receive.Slicing.{ReceiverInv, Stays, Keeps, process_message-Keeps}
use renet.Channel.Reliable.Receive.Genuine.{process_slice-Keeps}
use renet.Connection.Process.{
  PacketSentInfo, no_info, reliable_messages, reliable_slice_message, ack_info, last,
  process_messages, process_reliable, sent_info, process_message_acks, process_reliable_ack,
}

module _ (sent : List Bytes) where
  Stays-trans : (a b c : ReceiveChannelReliable) → Stays sent a b → Stays sent b c → Stays sent a c
  Stays-trans a b c s t = record {
    inv = t.inv;
    oldest = t.oldest ∙ s.oldest;
    in_order = λ q. t.in_order (s.in_order q);
  }

  Keeps-trans :
      (a b : ReceiveChannelReliable) (r : ReceiveChannelReliable × Result (Unit {0}) ChannelError)
      → Stays sent a b
      → Keeps sent b r
      → Keeps sent a r
  Keeps-trans a b (c, ok _) s t = Stays-trans a b c s t
  Keeps-trans a b (c, err e) s t = t

  process_messages-first :
      (ch : ReceiveChannelReliable) (id : ℕ) (m : Bytes) (ms : List (ℕ × Bytes))
      (x : ReceiveChannelReliable × Result (Unit {0}) ChannelError)
      → Keeps sent ch x
      → ((ch' : ReceiveChannelReliable)
          → Stays sent ch ch'
          → Keeps sent ch' (process_messages ch' ms))
      → Keeps sent ch (elim x.1 [ ok _ ↦ process_messages x.0 ms | err e ↦ (x.0, err e) ])
  process_messages-first ch id m ms (ch', ok _) k rest =
      Keeps-trans ch ch' (process_messages ch' ms) k (rest ch' k)
  process_messages-first ch id m ms (ch', err e) k rest = k

  process_messages-Keeps :
      (ch : ReceiveChannelReliable) (messages : List (ℕ × Bytes))
      → ReceiverInv sent ch
      → All (IsMessage sent) messages
      → Keeps sent ch (process_messages ch messages)
  unfolding process_messages
  process_messages-Keeps ch [] v a = record { inv = v; oldest = refl; in_order = λ q. q }
  process_messages-Keeps ch ((id, m) ∷ ms) v a =
      process_messages-first ch id m ms (process_message ch m id)
        (process_message-Keeps sent ch m id v a.0.0 (omega (arith, a.0.1)))
        (λ ch' k. process_messages-Keeps ch' ms k.inv a.1)

  -- A genuine packet never makes the receiver panic. It keeps the invariant, the order and the
  -- oldest pending id, or the channel's memory is exhausted: no other error occurs.
  pub process_reliable-Keeps :
      (ch : ReceiveChannelReliable) (p : Packet)
      → ReceiverInv sent ch
      → Genuine sent p
      → Returns (Keeps sent ch) (process_reliable ch p)
  unfolding process_reliable
  process_reliable-Keeps ch (small_reliable s c ms) v g =
      (_, refl, process_messages-Keeps ch ms v g)
  process_reliable-Keeps ch (reliable_slice s c slice) v g = process_slice-Keeps sent slice g ch v
  process_reliable-Keeps ch (small_unreliable s c ms) v g =
      (_, refl, record { inv = v; oldest = refl; in_order = λ q. q })
  process_reliable-Keeps ch (unreliable_slice s c slice) v g =
      (_, refl, record { inv = v; oldest = refl; in_order = λ q. q })
  process_reliable-Keeps ch (ack s rs) v g =
      (_, refl, record { inv = v; oldest = refl; in_order = λ q. q })

  process_message_acks-Returns :
      (now : ℕ) (ch : SendChannelReliable) (messages : List (ℕ × Bytes))
      → SenderInv sent now ch
      → All (IsMessage sent) messages
      → Returns (SenderInv sent now) (process_message_acks ch (map (λ e. e.0) messages))
  unfolding process_message_acks
  process_message_acks-Returns now ch [] v a = (ch, refl, v)
  process_message_acks-Returns now ch ((id, m) ∷ ms) v a =
      Returns-bind _ (SenderInv sent now) (process_message_ack ch id) _
        (process_message_ack-Returns sent now ch v id m a.0.0 a.0.1)
        (λ ch' k. process_message_acks-Returns now ch' ms k.0 a.1)

  -- The info that is kept of a genuine packet, once it is acked, never makes the sender panic and
  -- keeps its invariant. The `unreachable!` of both kinds of ack is indeed not reached.
  pub process_reliable_ack-Returns :
      (now : ℕ) (ch : SendChannelReliable) (p : Packet) (info : PacketSentInfo)
      → SenderInv sent now ch
      → Genuine sent p
      → sent_info p ≡ returns info
      → Returns (SenderInv sent now) (process_reliable_ack ch info)
  unfolding sent_info process_reliable_ack
  process_reliable_ack-Returns now ch (small_reliable s c ms) info v g e =
      let q : reliable_messages c (map (λ x. x.0) ms) ≡ info = cc e in
      subst (λ i. Returns (SenderInv sent now) (process_reliable_ack ch i)) q
        (process_message_acks-Returns now ch ms v g)
  process_reliable_ack-Returns now ch (reliable_slice s c slice) info v g e =
      let q : reliable_slice_message c slice.message_id slice.slice_index ≡ info = cc e in
      subst (λ i. Returns (SenderInv sent now) (process_reliable_ack ch i)) q
        (Returns-imp _ (SenderInv sent now)
          (process_slice_message_ack ch slice.message_id slice.slice_index)
          (process_slice_message_ack-Returns sent now ch v slice.message_id slice.slice_index
            slice.num_slices g.message g.known g.long g.cut g.index)
          (λ ch' k. k.0))
  process_reliable_ack-Returns now ch (small_unreliable s c ms) info v g e =
      subst (λ i. Returns (SenderInv sent now) (process_reliable_ack ch i))
        (let q : no_info ≡ info = cc e in q) (_, refl, v)
  process_reliable_ack-Returns now ch (unreliable_slice s c slice) info v g e =
      subst (λ i. Returns (SenderInv sent now) (process_reliable_ack ch i))
        (let q : no_info ≡ info = cc e in q) (_, refl, v)
  process_reliable_ack-Returns now ch (ack s rs) info v g e =
      let (r, f, q) =
        >>=-returns (unwrap (last rs)) (λ r. returns (ack_info (sub_u64 r.end 1))) e in
      subst (λ i. Returns (SenderInv sent now) (process_reliable_ack ch i))
        (let q' : ack_info (sub_u64 r.end 1) ≡ info = cc q in q') (_, refl, v)
