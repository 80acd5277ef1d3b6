-- ===== src/Connection/Delivery/Runs.antt =====
-- What the receiver delivers in every run.
use renet.Base.{
  ℕ, zero, suc, ◌+◌, ◌^◌, ◌≤◌, ◌<◌, ◌≡◌, refl, sym, ap, ◌∙◌, subst, some, List, [], ◌∷◌, ◌++◌, inl,
  inr, ◌⊎◌, arith, length, get_elem?, take, All, All-append, All-imp, take-suc, get_elem?-some-lt,
  length-append, length-take,
}
use renet.Base.Outcome.{returns, Result, ok, err, Returns, Returns-imp}
use renet.Error.{ChannelError, reliable_channel_max_memory_reached}
use renet.Packet.{Bytes, Packet}
use renet.Channel.Reliable.Send.Loop.{Genuine}
use renet.Channel.Reliable.Send.Packets.{Delivers, get_packets_to_send-Delivers}
use renet.Channel.Reliable.Send.Accounts.{
  SenderInv, new-SenderInv, Accepts, send_message-Accepts, SenderInv-later,
}
use renet.Channel.Reliable.Receive.{ReceiveChannelReliable, ordered, receive_message}
use renet.Channel.Reliable.Receive
use renet.Channel.Reliable.Receive.Slicing.{ReceiverInv, Stays, Keeps}
use renet.Channel.Reliable.Receive.Take.{nothing, takes, receive_message-Takes, new-ReceiverInv}
use renet.Connection.Process.{PacketSentInfo, process_reliable, sent_info, process_reliable_ack}
use renet.Connection.Process.Arrive.{process_reliable-Keeps, process_reliable_ack-Returns}
use renet.Connection.Delivery.{
  Peers, start, IsIn, Step, send, tick, transmit, arrive, acked, receive, Steps, none_yet,
  then_step,
}
use renet.Connection.Delivery.Grow.{Genuine-append, ReceiverInv-append}

pub record PeersInv (w : Peers) : Type 0 where
  pub sender : SenderInv w.sent w.now w.sender
  pub receiver : ReceiverInv w.sent w.receiver
  pub in_order : w.receiver.reliable_order ≡ ordered
  pub genuine : All (Genuine w.sent) w.network
  pub delivered : w.delivered ≡ take w.receiver.oldest_pending_message_id w.sent
  pub known : w.receiver.oldest_pending_message_id ≤ length w.sent

All-IsIn : (P : Packet → Type 0) (p : Packet) (ps : List Packet) → All P ps → IsIn p ps → P p
All-IsIn P p [] a i = absurd i
All-IsIn P p (q ∷ ps) a (inl e) = subst P (sym e) a.0
All-IsIn P p (q ∷ ps) a (inr i) = All-IsIn P p ps a.1 i

take-grow :
    (n : ℕ) (xs : List Bytes) (ys : List Bytes) → n ≤ length xs → take n (xs ++ ys) ≡ take n xs
take-grow zero xs ys h = refl
take-grow (suc n) [] ys h = absurd (omega arith)
take-grow (suc n) (x ∷ xs) ys h = ap (λ l. x ∷ l) (take-grow n xs ys (omega arith))

start-PeersInv : (c r s t : ℕ) → s < 2 ^ 59 → t < 2 ^ 59 → PeersInv (start c r s t)
unfolding Receive.new
start-PeersInv c r s t a b = record {
  sender = new-SenderInv c r s a;
  receiver = new-ReceiverInv [] t b;
  in_order = refl;
  genuine = tt;
  delivered = refl;
  known = omega arith;
}

received :
    (w : Peers) (m m' : Bytes) (ch ch' : ReceiveChannelReliable)
    → PeersInv w
    → ch' ≡ ch
    → m' ≡ m
    → get_elem? w.sent w.receiver.oldest_pending_message_id ≡ some m'
    → ch'.oldest_pending_message_id ≡ w.receiver.oldest_pending_message_id + 1
    → ch'.reliable_order ≡ ordered
    → ReceiverInv w.sent ch'
    → PeersInv (record w { receiver = ch; delivered = w.delivered ++ (m ∷ []) })
received w m m' ch ch' i q r known next o v =
    let l = get_elem?-some-lt w.sent w.receiver.oldest_pending_message_id m' known in
    let at_next : ch.oldest_pending_message_id ≡ suc w.receiver.oldest_pending_message_id =
      omega (arith, ap (λ c. c.oldest_pending_message_id) q, next) in
    record {
      sender = i.sender;
      receiver = subst (ReceiverInv w.sent) q v;
      in_order = ap (λ c. c.reliable_order) (sym q) ∙ o;
      genuine = i.genuine;
      delivered =
          ap (λ l. l ++ (m ∷ [])) i.delivered
          ∙ sym (take-suc w.sent w.receiver.oldest_pending_message_id m (known ∙ ap some r))
          ∙ ap (λ n. take n w.sent) (sym at_next);
      known = omega (arith, at_next, l);
    }

result :
    (sent : List Bytes) (ch : ReceiveChannelReliable)
    (r : ReceiveChannelReliable × Result (Unit {0}) ChannelError)
    → Keeps sent ch r
    → (r.1 ≡ ok tt) ⊎ (r.1 ≡ err reliable_channel_max_memory_reached)
result sent ch (ch', ok _) k = inl refl
result sent ch (ch', err e) k = inr (ap err k)

module _ (varint_len : ℕ → ℕ) where
  Step-PeersInv : (w v : Peers) → PeersInv w → Step varint_len w v → PeersInv v
  Step-PeersInv w _ i (send m ch b l e) = record {
    sender =
        (subst (Accepts w.sent w.now m w.sender) e
          (send_message-Accepts w.sent w.now m w.sender i.sender l b)).inv;
    receiver = ReceiverInv-append w.sent m w.receiver i.receiver;
    in_order = i.in_order;
    genuine =
        All-imp (Genuine w.sent) (Genuine (w.sent ++ (m ∷ []))) w.network (Genuine-append w.sent m)
          i.genuine;
    delivered =
        i.delivered ∙ sym (take-grow w.receiver.oldest_pending_message_id w.sent (m ∷ []) i.known);
    known = omega (arith, i.known, length-append w.sent (m ∷ []));
  }
  Step-PeersInv w _ i (tick t) = record {
    sender = SenderInv-later w.sent w.now (w.now + t) w.sender (omega arith) i.sender;
    receiver = i.receiver;
    in_order = i.in_order;
    genuine = i.genuine;
    delivered = i.delivered;
    known = i.known;
  }
  Step-PeersInv w _ i (transmit from budget out f b e) =
      let (out', e', d) =
        get_packets_to_send-Delivers varint_len w.sent w.now w.now from budget w.sender i.sender
          (omega arith) f b in
      let q : out' ≡ out = cc (e, e') in
      let d' : Delivers w.sent w.now from budget out =
        subst (Delivers w.sent w.now from budget) q d in
      record {
        sender = d'.invariant;
        receiver = i.receiver;
        in_order = i.in_order;
        genuine = All-append (Genuine w.sent) w.network out.packets i.genuine d'.genuine;
        delivered = i.delivered;
        known = i.known;
      }
  Step-PeersInv w _ i (arrive p ch h e) =
      let (x, e', k) =
        process_reliable-Keeps w.sent w.receiver p i.receiver
          (All-IsIn (Genuine w.sent) p w.network i.genuine h) in
      let q : x ≡ (ch, ok tt) = cc (e, e') in
      let s : Stays w.sent w.receiver ch = subst (Keeps w.sent w.receiver) q k in
      record {
        sender = i.sender;
        receiver = s.inv;
        in_order = s.in_order i.in_order;
        genuine = i.genuine;
        delivered = i.delivered ∙ ap (λ n. take n w.sent) (sym s.oldest);
        known = omega (arith, s.oldest, i.known);
      }
  Step-PeersInv w _ i (acked p info ch h e f) =
      let (x, e', k) =
        process_reliable_ack-Returns w.sent w.now w.sender p info i.sender
          (All-IsIn (Genuine w.sent) p w.network i.genuine h) e in
      let q : x ≡ ch = cc (f, e') in
      record {
        sender = subst (SenderInv w.sent w.now) q k;
        receiver = i.receiver;
        in_order = i.in_order;
        genuine = i.genuine;
        delivered = i.delivered;
        known = i.known;
      }
  Step-PeersInv w _ i (receive m ch e) =
      elim (receive_message-Takes w.sent w.receiver i.receiver i.in_order i.sender.words) [
        | nothing _ f ↦ absurd (cc (e, f))
        | takes ch' m' f _ known _ next o v ↦
            received w m m' ch ch' i (cc (e, f)) (cc (e, f)) known next o v
      ]

  Steps-PeersInv : (w v : Peers) → PeersInv w → Steps varint_len w v → PeersInv v
  Steps-PeersInv w _ i none_yet = i
  Steps-PeersInv w _ i (then_step {v} {u} s t) = Step-PeersInv v u (Steps-PeersInv w v i s) t

  -- With memory limits below 2^59: in every run of an ordered channel from its start, what the receiver has been given is the
  -- messages that were sent, in the order they were sent, each once, up to some point.
  pub delivered_in_order :
      (channel_id resend_time send_max receive_max : ℕ) (w : Peers)
      → send_max < 2 ^ 59
      → receive_max < 2 ^ 59
      → Steps varint_len (start channel_id resend_time send_max receive_max) w
      → w.delivered ≡ take (length w.delivered) w.sent
  delivered_in_order c r s t w a b steps =
      let i = Steps-PeersInv (start c r s t) w (start-PeersInv c r s t a b) steps in
      let n : length w.delivered ≡ w.receiver.oldest_pending_message_id = omega (
        arith,
        ap length i.delivered,
        length-take w.receiver.oldest_pending_message_id w.sent,
        i.known,
      ) in
      i.delivered ∙ ap (λ k. take k w.sent) (sym n)

  -- With memory limits below 2^59: in every run of an ordered channel from its start, any packet of the network that arrives is
  -- processed without a panic, and the only error that it can cause is the one of a channel that
  -- has no memory left.
  pub arrives_safely :
      (channel_id resend_time send_max receive_max : ℕ) (w : Peers) (p : Packet)
      → send_max < 2 ^ 59
      → receive_max < 2 ^ 59
      → Steps varint_len (start channel_id resend_time send_max receive_max) w
      → IsIn p w.network
      → Returns
          (λ r. (r.1 ≡ ok tt) ⊎ (r.1 ≡ err reliable_channel_max_memory_reached))
          (process_reliable w.receiver p)
  arrives_safely c r s t w p a b steps h =
      let i = Steps-PeersInv (start c r s t) w (start-PeersInv c r s t a b) steps in
      Returns-imp (Keeps w.sent w.receiver) _ (process_reliable w.receiver p)
        (process_reliable-Keeps w.sent w.receiver p i.receiver
          (All-IsIn (Genuine w.sent) p w.network i.genuine h))
        (result w.sent w.receiver)

  -- With memory limits below 2^59: in every run of an ordered channel from its start, the ack of any packet of the network is
  -- processed without a panic, and the sender keeps its invariant.
  pub acked_safely :
      (channel_id resend_time send_max receive_max : ℕ) (w : Peers) (p : Packet)
      (info : PacketSentInfo)
      → send_max < 2 ^ 59
      → receive_max < 2 ^ 59
      → Steps varint_len (start channel_id resend_time send_max receive_max) w
      → IsIn p w.network
      → sent_info p ≡ returns info
      → Returns (SenderInv w.sent w.now) (process_reliable_ack w.sender info)
  acked_safely c r s t w p info a b steps h e =
      let i = Steps-PeersInv (start c r s t) w (start-PeersInv c r s t a b) steps in
      process_reliable_ack-Returns w.sent w.now w.sender p info i.sender
        (All-IsIn (Genuine w.sent) p w.network i.genuine h) e
