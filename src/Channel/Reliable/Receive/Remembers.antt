-- ===== src/Channel/Reliable/Receive/Remembers.antt =====
-- What an unordered channel of renet/src/channel/reliable.rs remembers of the messages that arrive.
use renet.Base.{
  ℕ, ◌≡◌, ◌≢◌, refl, ap, ◌∙◌, subst, Bool, true, false, Option, none, some, List, [], ◌∷◌, ltb,
  ◌||◌, ==_false, ==_refl, if◌then◌else◌, arith, inl, inr, Bool-cases, length, All, All-imp,
}
use renet.Base.Word.{add_u64, sub_u64, mul_u64}
use renet.Base.Map.{Map, get, insert, remove, contains_key, get-insert}
use renet.Base.Map.Order.{Ascending, insert-Ascending}
use renet.Base.Map.Entries.{Entries, Entries-insert, Entries-imp}
use renet.Base.Outcome.{returns, >>=-returns, Result, ok, err}
use renet.Error.{ChannelError, reliable_channel_max_memory_reached}
use renet.Packet.{Bytes, Slice}
use renet.Channel.Slices
use renet.Channel.Slices.{SliceConstructor}
use renet.Channel.Reliable.Receive.{
  ReliableOrder, ordered, unordered, ReceiveChannelReliable, insert_message, process_in_order,
  process_message, slice_done, slice_into, process_slice,
}
use renet.Channel.Reliable.Receive.Messages.{contains-insert}

-- An id that is below the oldest, or among the received ones.
abbrev pub passed : Map (Unit {0}) → ℕ → ℕ → Bool
passed received oldest id = ltb id oldest || contains_key received id

abbrev pub Distinct : List ℕ → Type 0
Distinct [] = Unit {0}
Distinct (id ∷ ids) = All (λ j. j ≢ id) ids × Distinct ids

pub record OnceOf (ids : List ℕ) (messages : Map Bytes) (received : Map (Unit {0})) (oldest : ℕ)
    : Type 0 where
  pub ascending : Ascending messages
  pub tracked : Entries (λ id m. passed received oldest id ≡ true) messages
  pub gone : All (λ id. (passed received oldest id ≡ true) × (get messages id ≡ none)) ids
  pub distinct : Distinct ids

abbrev pub Once : List ℕ → Map Bytes → ReliableOrder → ℕ → Type 0
Once ids messages ordered oldest = ⊥
Once ids messages (unordered recent received) oldest = OnceOf ids messages received oldest

abbrev pub OnceInv : List ℕ → ReceiveChannelReliable → Type 0
OnceInv ids ch = Once ids ch.messages ch.reliable_order ch.oldest_pending_message_id

inserted :
    (ids : List ℕ) (messages : Map Bytes) (received : Map (Unit {0})) (oldest id : ℕ) (m : Bytes)
    → passed received oldest id ≡ false
    → OnceOf ids messages received oldest
    → OnceOf ids (insert messages id m) (insert received id tt) oldest
inserted ids messages received oldest id m new_id v = record {
  ascending = insert-Ascending messages id m v.ascending;
  tracked =
      Entries-insert (λ j x. passed (insert received id tt) oldest j ≡ true) messages id m
        (ground (arith, contains-insert received id id tt, ==_refl id))
        (Entries-imp (λ j x. passed received oldest j ≡ true)
          (λ j x. passed (insert received id tt) oldest j ≡ true) messages (λ j x p. grows j p)
          v.tracked);
  gone =
      All-imp (λ j. (passed received oldest j ≡ true) × (get messages j ≡ none))
        (λ j.
          (passed (insert received id tt) oldest j ≡ true) × (get (insert messages id m) j ≡ none))
        ids
        (λ j p. (grows j p.0, get-insert messages id j m ∙ rw (==_false id j (other j p.0)) p.1))
        v.gone;
  distinct = v.distinct;
}
  where
    grows :
        (j : ℕ) → passed received oldest j ≡ true → passed (insert received id tt) oldest j ≡ true
    grows j p = ground (arith, contains-insert received id j tt, p)

    other : (j : ℕ) → passed received oldest j ≡ true → id ≢ j
    other j p e = absurd (cc (new_id, p, ap (passed received oldest) e))

process_in_order-OnceInv :
    (ids : List ℕ) (ch : ReceiveChannelReliable) (order : ReliableOrder) (m : Bytes) (id : ℕ)
    → ltb id ch.oldest_pending_message_id ≡ false
    → Once ids ch.messages order ch.oldest_pending_message_id
    → ch.reliable_order ≡ order
    → OnceInv ids (process_in_order ch order m id).0
unfolding process_in_order insert_message
process_in_order-OnceInv ids ch ordered m id h v q = absurd v
process_in_order-OnceInv ids ch (unordered recent received) m id h v q =
    elim (Bool-cases (contains_key received id)) [
      | inl old ↦ rw old v
      | inr new_id ↦
          elim (Bool-cases
            (ltb ch.max_memory_usage_bytes (add_u64 ch.memory_usage_bytes (length m)))) [
              | inl full ↦ rw (new_id, full) v
              | inr fits ↦
                  rw (new_id, fits)
                    (inserted ids ch.messages received ch.oldest_pending_message_id id m
                      (rw (h, new_id) refl) v)
            ]
    ]

pub process_message-OnceInv :
    (ids : List ℕ) (ch : ReceiveChannelReliable) (m : Bytes) (id : ℕ)
    → OnceInv ids ch
    → OnceInv ids (process_message ch m id).0
unfolding process_message
process_message-OnceInv ids ch m id v = elim (Bool-cases (ltb id ch.oldest_pending_message_id)) [
  | inl old ↦ rw old v
  | inr new_id ↦ rw new_id (process_in_order-OnceInv ids ch ch.reliable_order m id new_id v refl)
]

-- What follows `process_message` of a message that is put together.
abbrev pub without_slices :
    Slice
    → ReceiveChannelReliable × Result (Unit {0}) ChannelError
    → ReceiveChannelReliable × Result (Unit {0}) ChannelError
without_slices slice (ch, r) = elim r [
  | ok _ ↦ (record ch { slices = remove ch.slices slice.message_id }, ok tt)
  | err e ↦ (ch, err e)
]

slice_done-OnceInv :
    (ids : List ℕ) (ch : ReceiveChannelReliable) (slice : Slice)
    (r : Result (Option Bytes) ChannelError)
    → OnceInv ids ch
    → OnceInv ids (slice_done ch slice r).0
unfolding slice_done
slice_done-OnceInv ids ch slice (err e) v = v
slice_done-OnceInv ids ch slice (ok none) v = v
slice_done-OnceInv ids ch slice (ok (some m)) v =
    go (process_message freed m slice.message_id)
      (process_message-OnceInv ids freed m slice.message_id v)
  where
    freed : ReceiveChannelReliable
    freed = record ch {
      memory_usage_bytes = sub_u64 ch.memory_usage_bytes (mul_u64 slice.num_slices 1200);
    }

    go :
        (x : ReceiveChannelReliable × Result (Unit {0}) ChannelError)
        → OnceInv ids x.0
        → OnceInv ids (without_slices slice x).0
    go (c, ok _) w = w
    go (c, err e) w = w

slice_into-OnceInv :
    (ids : List ℕ) (ch : ReceiveChannelReliable) (slice : Slice) (c : SliceConstructor)
    (r : ReceiveChannelReliable × Result (Unit {0}) ChannelError)
    → OnceInv ids ch
    → slice_into ch slice c ≡ returns r
    → OnceInv ids r.0
unfolding slice_into
slice_into-OnceInv ids ch slice c r v e =
    let (x, _, q) =
      >>=-returns (Slices.process_slice c slice.slice_index slice.payload)
        (λ (c', a).
          returns
            (slice_done (record ch { slices = insert ch.slices slice.message_id c' }) slice a))
        e in
    let same : slice_done (record ch { slices = insert ch.slices slice.message_id x.0 }) slice x.1
        ≡ r =
      cc q in
    subst (λ z. OnceInv ids z.0) same
      (slice_done-OnceInv ids (record ch { slices = insert ch.slices slice.message_id x.0 }) slice
        x.1 v)

pub process_slice-OnceInv :
    (ids : List ℕ) (ch : ReceiveChannelReliable) (slice : Slice)
    (r : ReceiveChannelReliable × Result (Unit {0}) ChannelError)
    → OnceInv ids ch
    → process_slice ch slice ≡ returns r
    → OnceInv ids r.0
unfolding process_slice
process_slice-OnceInv ids ch slice r v e =
    elim (Bool-cases (
      contains_key ch.messages slice.message_id
      || ltb slice.message_id ch.oldest_pending_message_id)) [
        | inl old ↦
            let same : (ch, ok tt) ≡ r = cc (rw old at e) in subst (λ z. OnceInv ids z.0) same v
        | inr new_id ↦ go (get ch.slices slice.message_id) (rw new_id at e)
      ]
  where
    size : ℕ
    size = add_u64 ch.memory_usage_bytes (mul_u64 slice.num_slices 1200)

    fresh :
        (b : Bool)
        → (if b
            then returns (ch, err reliable_channel_max_memory_reached)
            else slice_into
                (record ch { memory_usage_bytes = size })
                slice
                (Slices.new slice.message_id slice.num_slices))
          ≡ returns r
        → OnceInv ids r.0
    fresh true q =
        let same : (ch, err reliable_channel_max_memory_reached) ≡ r = cc q in
        subst (λ z. OnceInv ids z.0) same v
    fresh false q =
        slice_into-OnceInv ids (record ch { memory_usage_bytes = size }) slice
          (Slices.new slice.message_id slice.num_slices) r v q

    go :
        (o : Option SliceConstructor)
        → elim o [
          | some c ↦ slice_into ch slice c
          | none ↦
              if ltb ch.max_memory_usage_bytes size
              then returns (ch, err reliable_channel_max_memory_reached)
              else slice_into
                  (record ch { memory_usage_bytes = size })
                  slice
                  (Slices.new slice.message_id slice.num_slices)
        ]
          ≡ returns r
        → OnceInv ids r.0
    go (some c) q = slice_into-OnceInv ids ch slice c r v q
    go none q = fresh (ltb ch.max_memory_usage_bytes size) q
