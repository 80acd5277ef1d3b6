-- ===== src/Channel/Reliable/Receive/Gives.antt =====
-- What an unordered channel of renet/src/channel/reliable.rs remembers when it gives a message.
use renet.Base.{
  ℕ, ◌+◌, ◌^◌, ◌<◌, ◌≡◌, ◌≢◌, sym, subst, true, Option, none, List, ◌∷◌, ◌==◌, ==_refl, arith, inl,
  inr, Bool-cases, length, All-imp,
}
use renet.Base.Map.{Map, get}
use renet.Base.Map.Order.{get-Above}
use renet.Base.Map.Entries.{Entries-imp}
use renet.Packet.{Bytes}
use renet.Channel.Reliable.Receive
use renet.Channel.Reliable.Receive.{
  ReliableOrder, ordered, unordered, ReceiveChannelReliable, insert_message, process_in_order,
  process_message, slice_done, slice_into, process_slice, advance_oldest, receive_unordered,
  receive_message,
}
use renet.Channel.Reliable.Receive.Order.{Advanced, advance_oldest-Advanced}
use renet.Channel.Reliable.Receive.Remembers.{passed, OnceOf, Once, OnceInv}

taken-OnceOf :
    (ids : List ℕ) (rest : Map Bytes) (received received' : Map (Unit {0})) (oldest oldest' id : ℕ)
    (m : Bytes)
    → ((j : ℕ) → passed received oldest j ≡ true → passed received' oldest' j ≡ true)
    → OnceOf ids ((id, m) ∷ rest) received oldest
    → OnceOf (id ∷ ids) rest received' oldest'
taken-OnceOf ids rest received received' oldest oldest' id m grows v = record {
  ascending = v.ascending.1;
  tracked =
      Entries-imp (λ j x. passed received oldest j ≡ true)
        (λ j x. passed received' oldest' j ≡ true) rest (λ j x p. grows j p) v.tracked.1;
  gone = (
    (grows id v.tracked.0, get-Above id rest id v.ascending.0 (omega arith)),
    All-imp (λ j. (passed received oldest j ≡ true) × (get ((id, m) ∷ rest) j ≡ none))
        (λ j. (passed received' oldest' j ≡ true) × (get rest j ≡ none)) ids
        (λ j p. (grows j p.0, behind j p.1)) v.gone,
  );
  distinct = (
    All-imp (λ j. (passed received oldest j ≡ true) × (get ((id, m) ∷ rest) j ≡ none)) (λ j. j ≢ id)
        ids (λ j p. differs j p.1) v.gone,
    v.distinct,
  );
}
  where
    behind : (j : ℕ) → get ((id, m) ∷ rest) j ≡ none → get rest j ≡ none
    behind j e = unfold get in ground (arith, e)

    differs : (j : ℕ) → get ((id, m) ∷ rest) j ≡ none → j ≢ id
    differs j e q = absurd (unfold get in ground (arith, e, q, ==_refl id))

-- The loop moves the oldest id over ids that were received.
Advanced-passed :
    (received : Map (Unit {0})) (oldest j : ℕ) (r : Map (Unit {0}) × ℕ)
    → Advanced received oldest r
    → passed received oldest j ≡ true
    → passed r.0 r.1 j ≡ true
Advanced-passed received oldest j r a p = ground (arith, a.before j, a.from, p)

abbrev pub HasRoom : ReliableOrder → ℕ → Type 0
HasRoom ordered oldest = Unit {0}
HasRoom (unordered recent received) oldest = oldest + length received < 2 ^ 64

receive_unordered-OnceInv :
    (ids : List ℕ) (ch : ReceiveChannelReliable) (recent : ℕ) (received : Map (Unit {0})) (id : ℕ)
    (m : Bytes) (rest : Map Bytes)
    → ch.oldest_pending_message_id + length received < 2 ^ 64
    → OnceOf ids ((id, m) ∷ rest) received ch.oldest_pending_message_id
    → OnceInv (id ∷ ids) (receive_unordered ch recent received ((id, m) ∷ rest)).0
unfolding receive_unordered
receive_unordered-OnceInv ids ch recent received id m rest b v =
    elim (Bool-cases (ch.oldest_pending_message_id == id)) [
      | inl first ↦ rw first (
          let r = advance_oldest (length received) received ch.oldest_pending_message_id in
          let a =
            advance_oldest-Advanced (length received) received ch.oldest_pending_message_id
              (omega arith) b in
          taken-OnceOf ids rest received r.0 ch.oldest_pending_message_id r.1 id m
            (λ j. Advanced-passed received ch.oldest_pending_message_id j r a) v)
      | inr later ↦ rw later (
          taken-OnceOf ids rest received received ch.oldest_pending_message_id
            ch.oldest_pending_message_id id m (λ j p. p) v)
    ]

abbrev pub given : ReceiveChannelReliable → ReliableOrder → ReceiveChannelReliable × Option Bytes
given ch o = elim o [
  | ordered ↦ Receive.receive_ordered ch
  | unordered recent received ↦ receive_unordered ch recent received ch.messages
]

pub receive_message-OnceInv :
    (ids : List ℕ) (ch : ReceiveChannelReliable) (id : ℕ) (m : Bytes) (rest : Map Bytes)
    → ch.messages ≡ (id, m) ∷ rest
    → HasRoom ch.reliable_order ch.oldest_pending_message_id
    → OnceInv ids ch
    → OnceInv (id ∷ ids) (receive_message ch).0
unfolding receive_message
receive_message-OnceInv ids ch id m rest e b v = go ch.reliable_order b v
  where
    go :
        (o : ReliableOrder)
        → HasRoom o ch.oldest_pending_message_id
        → Once ids ch.messages o ch.oldest_pending_message_id
        → OnceInv (id ∷ ids) (given ch o).0
    go ordered b v = absurd v
    go (unordered recent received) b v =
        subst (λ ms. OnceInv (id ∷ ids) (receive_unordered ch recent received ms).0) (sym e)
          (receive_unordered-OnceInv ids ch recent received id m rest b
            (subst (λ ms. OnceOf ids ms received ch.oldest_pending_message_id) e v))
