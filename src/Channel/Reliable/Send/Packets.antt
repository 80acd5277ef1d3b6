-- ===== src/Channel/Reliable/Send/Packets.antt =====
-- What `get_packets_to_send` returns.
use renet.Base.{
  ℕ, ◌+◌, ◌%◌, ◌^◌, ◌≤◌, ◌≡◌, refl, ◌∙◌, ap, List, [], ◌∷◌, arith, length, get_elem?, All, subst,
}
use renet.Base.Word.{IsU64}
use renet.Base.Map.{Map}
use renet.Base.Map.Order.{Above, Ascending}
use renet.Base.Map.Sum.{total}
use renet.Base.Map.Entries.{Entries, Entries-imp}
use renet.Base.Outcome.{Returns, Returns-bind}
use renet.Packet.{Bytes}
use renet.Channel.Reliable.Send.{
  UnackedMessage, SendChannelReliable, Sending, Sent, flush, send_unacked, send_all, flush_rest,
  get_packets_to_send,
}
use renet.Channel.Reliable.Send.Loop.{
  Genuine, Numbered, bytes_of, message_bytes, Gathered, flush-Gathered,
}
use renet.Channel.Reliable.Send.Sends.{Step, IsUnacked, send_unacked-Step}
use renet.Channel.Reliable.Send.Accounts.{
  size_of, message_of, message_of_lem, SenderInv, IsUnacked-later,
}

-- The same keys in the same order.
abbrev SameKeys : Map UnackedMessage → Map UnackedMessage → Type 0
SameKeys [] [] = Unit {0}
SameKeys [] (b ∷ n) = ⊥
SameKeys (a ∷ m) [] = ⊥
SameKeys (a ∷ m) (b ∷ n) = (a.0 ≡ b.0) × SameKeys m n

Above-same : (k : ℕ) (m n : Map UnackedMessage) → SameKeys m n → Above k m → Above k n
Above-same k [] [] s a = tt
Above-same k [] (y ∷ n) s a = absurd s
Above-same k (x ∷ m) [] s a = absurd s
Above-same k ((i, u) ∷ m) ((j, w) ∷ n) s a = (omega arith, Above-same k m n s.1 a.1)

Ascending-same : (m n : Map UnackedMessage) → SameKeys m n → Ascending m → Ascending n
Ascending-same [] [] s a = tt
Ascending-same [] (y ∷ n) s a = absurd s
Ascending-same (x ∷ m) [] s a = absurd s
Ascending-same ((i, u) ∷ m) ((j, w) ∷ n) s a =
    (subst (λ z. Above z n) s.0 (Above-same i m n s.1 a.0), Ascending-same m n s.1 a.1)

-- An entry's size is that of the message with its id.
size-eq :
    (sent : List Bytes) (a b i j : ℕ) (u w : UnackedMessage)
    → i ≡ j
    → IsUnacked sent a i u
    → IsUnacked sent b j w
    → size_of u ≡ size_of w
size-eq sent a b i j u w e p q =
    let same : message_of u ≡ message_of w =
      cc (message_of_lem sent a i u p, ap (get_elem? sent) e, message_of_lem sent b j w q) in
    ap length same

total-same :
    (sent : List Bytes) (a b : ℕ) (m n : Map UnackedMessage)
    → SameKeys m n
    → Entries (IsUnacked sent a) m
    → Entries (IsUnacked sent b) n
    → total size_of m ≡ total size_of n
total-same sent a b [] [] s p q = refl
total-same sent a b [] (y ∷ n) s p q = absurd s
total-same sent a b (x ∷ m) [] s p q = absurd s
total-same sent a b ((i, u) ∷ m) ((j, w) ∷ n) s p q =
    omega (arith, size-eq sent a b i j u w s.0 p.0 q.0, total-same sent a b m n s.1 p.1 q.1)

module _ (sent : List Bytes) (from budget : ℕ) (varint_len : ℕ → ℕ) (c r t : ℕ) where
  abbrev AllSent : Map UnackedMessage → Sending × Map UnackedMessage → Type 0
  AllSent m (st, n) = Gathered sent from budget st × Entries (IsUnacked sent t) n × SameKeys m n

  send_all-AllSent :
      (m : Map UnackedMessage) (st : Sending)
      → Entries (IsUnacked sent t) m
      → Gathered sent from budget st
      → Returns (AllSent m) (send_all varint_len c r t m st)
  unfolding send_all
  send_all-AllSent [] st v g = ((st, []), refl, (g, tt, tt))
  send_all-AllSent ((id, u) ∷ m) st v g =
      Returns-bind (Step sent from budget varint_len c r t (IsUnacked sent t id))
        (AllSent ((id, u) ∷ m)) (send_unacked varint_len c r t id u st) _
        (send_unacked-Step sent from budget varint_len c r t id u st v.0 g)
        (λ (st', u') (g', v').
          Returns-bind (AllSent m) (AllSent ((id, u) ∷ m)) (send_all varint_len c r t m st') _
            (send_all-AllSent m st' v.1 g')
            (λ (st'', n) (g'', w, s). ((st'', (id, u') ∷ n), refl, (g'', (v', w), (refl, s)))))

  flush_rest-Gathered :
      (st : Sending)
      → Gathered sent from budget st
      → Gathered sent from budget (flush_rest varint_len c r t st)
        × (message_bytes (flush_rest varint_len c r t st).small_messages ≡ 0)
  unfolding flush_rest flush
  flush_rest-Gathered st g = go st.small_messages refl
    where
      go :
          (ms : List (ℕ × Bytes))
          → st.small_messages ≡ ms
          → Gathered sent from budget (flush_rest varint_len c r t st)
            × (message_bytes (flush_rest varint_len c r t st).small_messages ≡ 0)
      go [] e = rw (e, flush_rest) (g, ap message_bytes e)
      go (x ∷ ms) e =
          rw (e, flush_rest) (flush-Gathered sent from budget varint_len c r t st g, refl)

-- What a call of `get_packets_to_send` returns.
pub record Delivers (sent : List Bytes) (now from budget : ℕ) (out : Sent SendChannelReliable)
    : Type 0 where
  pub invariant : SenderInv sent now out.channel
  pub genuine : All (Genuine sent) out.packets
  pub numbered : Numbered from out.packets
  pub next : out.packet_sequence ≡ (from + length out.packets) % 2 ^ 64
  pub spent : bytes_of out.packets + out.available_bytes ≡ budget

pub get_packets_to_send-Delivers :
    (varint_len : ℕ → ℕ) (sent : List Bytes) (before now from budget : ℕ) (ch : SendChannelReliable)
    → SenderInv sent before ch
    → before ≤ now
    → IsU64 from
    → IsU64 budget
    → Returns (Delivers sent now from budget) (get_packets_to_send varint_len ch from budget now)
unfolding get_packets_to_send
get_packets_to_send-Delivers varint_len sent before now from budget ch v later f b =
    Returns-bind
      (AllSent sent from budget varint_len ch.channel_id ch.resend_time now ch.unacked_messages)
      (Delivers sent now from budget)
      (send_all varint_len ch.channel_id ch.resend_time now ch.unacked_messages start) _
      (send_all-AllSent sent from budget varint_len ch.channel_id ch.resend_time now
        ch.unacked_messages start entries_now (omega arith))
      (λ (st, n) (g, w, s). (
        _,
        refl,
        let (g', none_left) =
              flush_rest-Gathered sent from budget varint_len ch.channel_id ch.resend_time now st
                g in
            record {
              invariant = record {
                next = v.next;
                words = v.words;
                entries = w;
                ascending = Ascending-same ch.unacked_messages n s v.ascending;
                accounts =
                    v.accounts ∙ total-same sent before now ch.unacked_messages n s v.entries w;
                limit = v.limit;
                room = v.room;
              };
              genuine = g'.genuine;
              numbered = g'.numbered;
              next = g'.next;
              spent = omega (arith, g'.spent, none_left);
            },
      ))
  where
    start : Sending
    start = record {
      packets = [];
      small_messages = [];
      small_messages_bytes = 0;
      packet_sequence = from;
      available_bytes = budget;
    }

    entries_now : Entries (IsUnacked sent now) ch.unacked_messages
    entries_now =
        Entries-imp (IsUnacked sent before) (IsUnacked sent now) ch.unacked_messages
          (λ id u. IsUnacked-later sent before now id u later) v.entries
