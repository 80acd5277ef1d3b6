-- ===== src/Channel/Reliable/Receive/Messages.antt =====
-- `process_message` of renet/src/channel/reliable.rs: the messages of a receiver and their memory.
use renet.Base.{
  ℕ, ◌+◌, ◌^◌, ◌≤◌, ◌<◌, ◌≡◌, refl, ◌∙◌, ap, ◌⊎◌, inl, inr, true, false, Option, none, some, List,
  arith, length, get_elem?, Bool-cases, Option-cases, ltb, ◌==◌, if◌then◌else◌, ==_iff, not_ltb→le,
  subst,
}
use renet.Base.Word.{add_u64, add_u64-eq}
use renet.Base.Map.{Map, get, insert, contains_key, contains_key-get, get-insert}
use renet.Base.Map.Order.{Ascending, insert-Ascending}
use renet.Base.Map.Sum.{total, total-insert}
use renet.Base.Map.Entries.{Entries, Entries-insert, Entries-get, Entries-imp}
use renet.Packet.{Bytes}
use renet.Channel.Reliable.Receive.{
  ReliableOrder, ordered, unordered, ReceiveChannelReliable, insert_message, process_in_order,
  process_message,
}

-- Every message that waits in an unordered channel is among the received ids, or below the oldest.
abbrev pub IsTracked : Map Bytes → ℕ → ReliableOrder → Type 0
IsTracked messages oldest ordered = Unit {0}
IsTracked messages oldest (unordered recent received) =
    Entries (λ id m. (contains_key received id ≡ true) ⊎ (id < oldest)) messages

-- `extra` is what the slices take.
pub record MessagesInv (sent : List Bytes) (extra : ℕ) (ch : ReceiveChannelReliable) : Type 0 where
  pub known : Entries (λ id m. get_elem? sent id ≡ some m) ch.messages
  pub ascending : Ascending ch.messages
  pub tracked : IsTracked ch.messages ch.oldest_pending_message_id ch.reliable_order
  pub accounts : ch.memory_usage_bytes ≡ total length ch.messages + extra
  pub limit : ch.memory_usage_bytes ≤ ch.max_memory_usage_bytes
  pub room : ch.max_memory_usage_bytes < 2 ^ 59

pub contains_false : {V : Type 0} (m : Map V) (k : ℕ) → contains_key m k ≡ false → get m k ≡ none
contains_false m k h = elim (Option-cases (get m k)) [
  | inl e ↦ e
  | inr (v, e) ↦ absurd (
      cc (
        contains_key-get m k ∙ ap (λ (o : Option _). elim o [ none ↦ false | some _ ↦ true ]) e,
        h,
      ))
]

pub contains-insert :
    {V : Type 0} (m : Map V) (k j : ℕ) (v : V)
    → contains_key (insert m k v) j ≡ (if k == j then true else contains_key m j)
contains-insert m k j v =
    ground (arith, contains_key-get (insert m k v) j, get-insert m k j v, contains_key-get m j)

-- The result of a call, and what stays as it was.
pub record Kept (sent : List Bytes) (extra : ℕ) (ch ch' : ReceiveChannelReliable) : Type 0 where
  pub inv : MessagesInv sent extra ch'
  pub slices : ch'.slices ≡ ch.slices
  pub oldest : ch'.oldest_pending_message_id ≡ ch.oldest_pending_message_id
  pub in_order : ch.reliable_order ≡ ordered → ch'.reliable_order ≡ ordered

insert_message-Kept :
    (sent : List Bytes) (extra : ℕ) (ch : ReceiveChannelReliable) (order : ReliableOrder)
    (m : Bytes) (id : ℕ)
    → MessagesInv sent extra ch
    → get_elem? sent id ≡ some m
    → length m < 2 ^ 59
    → get ch.messages id ≡ none
    → IsTracked (insert ch.messages id m) ch.oldest_pending_message_id order
    → (ch.reliable_order ≡ ordered → order ≡ ordered)
    → Kept sent extra ch (insert_message ch order m id).0
unfolding insert_message
insert_message-Kept sent extra ch order m id v e b free tr kind =
    let sum = add_u64-eq ch.memory_usage_bytes (length m) (omega (arith, v.limit, v.room)) in
    elim (Bool-cases (ltb ch.max_memory_usage_bytes (add_u64 ch.memory_usage_bytes (length m)))) [
      | inl full ↦
          rw (full, insert_message)
            (record { inv = v; slices = refl; oldest = refl; in_order = λ q. q })
      | inr fits ↦
          rw (fits, insert_message)
            (record {
              inv = record {
                known =
                    Entries-insert (λ i x. get_elem? sent i ≡ some x) ch.messages id m e v.known;
                ascending = insert-Ascending ch.messages id m v.ascending;
                tracked = tr;
                accounts =
                    omega (arith, sum, v.accounts, total-insert length ch.messages id m free);
                limit =
                    not_ltb→le ch.max_memory_usage_bytes (add_u64 ch.memory_usage_bytes (length m))
                      fits;
                room = v.room;
              };
              slices = refl;
              oldest = refl;
              in_order = kind;
            })
    ]

process_in_order-Kept :
    (sent : List Bytes) (extra : ℕ) (ch : ReceiveChannelReliable) (order : ReliableOrder)
    (m : Bytes) (id : ℕ)
    → ch.reliable_order ≡ order
    → MessagesInv sent extra ch
    → get_elem? sent id ≡ some m
    → length m < 2 ^ 59
    → ch.oldest_pending_message_id ≤ id
    → Kept sent extra ch (process_in_order ch order m id).0
unfolding process_in_order
process_in_order-Kept sent extra ch ordered m id q v e b new_id =
    elim (Bool-cases (contains_key ch.messages id)) [
      | inl old ↦ rw old (record { inv = v; slices = refl; oldest = refl; in_order = λ q. q })
      | inr free ↦ rw free (
          insert_message-Kept sent extra ch ordered m id v e b (contains_false ch.messages id free)
            tt (λ _. refl))
    ]
process_in_order-Kept sent extra ch (unordered recent received) m id q v e b new_id =
    elim (Bool-cases (contains_key received id)) [
      | inl old ↦
          rw old (record { inv = inv' new_recent; slices = refl; oldest = refl; in_order = never })
      | inr fresh ↦ rw fresh (
          let k =
            insert_message-Kept sent extra (ch' new_recent)
              (unordered new_recent (insert received id tt)) m id (inv' new_recent) e b (free fresh)
              (tr new_recent) (λ o. absurd (cc (o))) in
          record { inv = k.inv; slices = k.slices; oldest = k.oldest; in_order = never })
    ]
  where
    never : {o : ReliableOrder} → ch.reliable_order ≡ ordered → o ≡ ordered
    never o = absurd (cc (o, q))

    new_recent : ℕ
    new_recent = if ltb recent id then id else recent

    ch' : ℕ → ReceiveChannelReliable
    ch' r = record ch { reliable_order = unordered r received }

    tracked :
        Entries
          (λ i x. (contains_key received i ≡ true) ⊎ (i < ch.oldest_pending_message_id))
          ch.messages
    tracked = subst (IsTracked ch.messages ch.oldest_pending_message_id) q v.tracked

    inv' : (r : ℕ) → MessagesInv sent extra (ch' r)
    inv' r = record {
      known = v.known;
      ascending = v.ascending;
      tracked = tracked;
      accounts = v.accounts;
      limit = v.limit;
      room = v.room;
    }

    free : contains_key received id ≡ false → get ch.messages id ≡ none
    free fresh = elim (Option-cases (get ch.messages id)) [
      | inl g ↦ g
      | inr (x, g) ↦
          absurd
            (elim (Entries-get
              (λ i y. (contains_key received i ≡ true) ⊎ (i < ch.oldest_pending_message_id))
              ch.messages id x tracked g) [
                | inl c ↦ cc (c, fresh)
                | inr l ↦ omega (arith, l, new_id)
              ])
    ]

    grows :
        (i : ℕ) (y : Bytes)
        → (contains_key received i ≡ true) ⊎ (i < ch.oldest_pending_message_id)
        → (contains_key (insert received id tt) i ≡ true) ⊎ (i < ch.oldest_pending_message_id)
    grows i y (inl c) = inl (contains-insert received id i tt ∙ ground (arith, c))
    grows i y (inr l) = inr l

    tr :
        (r : ℕ)
        → IsTracked
            (insert ch.messages id m)
            ch.oldest_pending_message_id
            (unordered r (insert received id tt))
    tr r =
        Entries-insert
          (λ i y.
            (contains_key (insert received id tt) i ≡ true) ⊎ (i < ch.oldest_pending_message_id))
          ch.messages id m
          (inl (contains-insert received id id tt ∙ ground (arith, (==_iff id id).1 refl)))
          (Entries-imp
            (λ i y. (contains_key received i ≡ true) ⊎ (i < ch.oldest_pending_message_id))
            (λ i y.
              (contains_key (insert received id tt) i ≡ true) ⊎ (i < ch.oldest_pending_message_id))
            ch.messages grows tracked)

-- A message that was sent, under its id, keeps the receiver's messages and accounts in order,
-- also when there is no memory left for it.
pub process_message-Kept :
    (sent : List Bytes) (extra : ℕ) (ch : ReceiveChannelReliable) (m : Bytes) (id : ℕ)
    → MessagesInv sent extra ch
    → get_elem? sent id ≡ some m
    → length m < 2 ^ 59
    → Kept sent extra ch (process_message ch m id).0
unfolding process_message
process_message-Kept sent extra ch m id v e b =
    elim (Bool-cases (ltb id ch.oldest_pending_message_id)) [
      | inl old ↦ rw old (record { inv = v; slices = refl; oldest = refl; in_order = λ q. q })
      | inr new_id ↦ rw new_id (
          process_in_order-Kept sent extra ch ch.reliable_order m id refl v e b
            (not_ltb→le id ch.oldest_pending_message_id new_id))
    ]
