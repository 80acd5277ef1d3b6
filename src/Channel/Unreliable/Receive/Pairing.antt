-- ===== src/Channel/Unreliable/Receive/Pairing.antt =====
-- The times of the incomplete messages of an unreliable receiver of
-- renet/src/channel/unreliable.rs.
use renet.Base.{
  ℕ, ◌≤◌, ◌≡◌, refl, sym, ◌∙◌, subst, true, Option, none, some, List, [], ◌∷◌, ==_false, ==_refl,
  ltb, length, arith, inl, inr, Bool-cases, Option-cases, ◌≢◌,
}
use renet.Base.Word.{add_u64, sub_u64, mul_u64}
use renet.Base.Map.{Map, get, insert, remove, contains_key}
use renet.Base.Map.Order.{Ascending, insert-Ascending, remove-Ascending}
use renet.Base.Map.Entries.{Entries, Entries-insert, Entries-imp}
use renet.Base.Outcome.{returns, >>=-returns, Result, ok, err}
use renet.Error.{ChannelError}
use renet.Packet.{Bytes, Slice}
use renet.Channel.Slices
use renet.Channel.Slices.{SliceConstructor}
use renet.Channel.Unreliable.Receive.{
  ReceiveChannelUnreliable, process_message, slice_done, slice_into, process_slice, receive_message,
}
use renet.Channel.Unreliable.Receive.Memory.{contains-remove}
use renet.Channel.Unreliable.Receive.Discard.{Entries-remove_other}
use renet.Channel.Reliable.Receive.Messages.{contains-insert}

-- Every time belongs to an incomplete message, and is not after now.
pub record Pairs (now : ℕ) (slices : Map SliceConstructor) (times : Map ℕ) : Type 0 where
  pub ascending : Ascending times
  pub paired : Entries (λ id t. (t ≤ now) × (contains_key slices id ≡ true)) times

abbrev pub PairsIn : ℕ → ReceiveChannelUnreliable → Type 0
PairsIn now ch = Pairs now ch.slices ch.slices_last_received

pub Pairs-later :
    (now now' : ℕ) (slices : Map SliceConstructor) (times : Map ℕ)
    → now ≤ now'
    → Pairs now slices times
    → Pairs now' slices times
Pairs-later now now' slices times h v = record {
  ascending = v.ascending;
  paired =
      Entries-imp (λ id t. (t ≤ now) × (contains_key slices id ≡ true))
        (λ id t. (t ≤ now') × (contains_key slices id ≡ true)) times
        (λ id t p. (omega (arith, p.0, h), p.1)) v.paired;
}

pub Pairs-remove :
    (now id : ℕ) (slices : Map SliceConstructor) (times : Map ℕ)
    → Pairs now slices times
    → Pairs now (remove slices id) (remove times id)
Pairs-remove now id slices times v = record {
  ascending = remove-Ascending times id v.ascending;
  paired =
      Entries-imp (λ j t. ((t ≤ now) × (contains_key slices j ≡ true)) × (j ≢ id))
        (λ j t. (t ≤ now) × (contains_key (remove slices id) j ≡ true)) (remove times id)
        (λ j t p.
          (p.0.0, contains-remove slices id j ∙ rw (==_false id j (λ q. p.1 (sym q))) p.0.1))
        (Entries-remove_other (λ j t. (t ≤ now) × (contains_key slices j ≡ true)) times id
          v.paired);
}

-- More slices, with the time or without.
Pairs-insert :
    (now id : ℕ) (c : SliceConstructor) (slices : Map SliceConstructor) (times : Map ℕ)
    → Pairs now slices times
    → Pairs now (insert slices id c) times
Pairs-insert now id c slices times v = record {
  ascending = v.ascending;
  paired =
      Entries-imp (λ j t. (t ≤ now) × (contains_key slices j ≡ true))
        (λ j t. (t ≤ now) × (contains_key (insert slices id c) j ≡ true)) times
        (λ j t p. (p.0, ground (arith, contains-insert slices id j c, p.1))) v.paired;
}

Pairs-timed :
    (now id : ℕ) (c : SliceConstructor) (slices : Map SliceConstructor) (times : Map ℕ)
    → Pairs now (insert slices id c) times
    → Pairs now (insert slices id c) (insert times id now)
Pairs-timed now id c slices times v = record {
  ascending = insert-Ascending times id now v.ascending;
  paired =
      Entries-insert (λ j t. (t ≤ now) × (contains_key (insert slices id c) j ≡ true)) times id now
        (omega arith, ground (arith, contains-insert slices id id c, ==_refl id)) v.paired;
}

pub process_message-PairsIn :
    (now : ℕ) (ch : ReceiveChannelUnreliable) (m : Bytes)
    → PairsIn now ch
    → PairsIn now (process_message ch m)
unfolding process_message
process_message-PairsIn now ch m v =
    elim (Bool-cases (ltb ch.max_memory_usage_bytes (add_u64 ch.memory_usage_bytes (length m)))) [
      | inl full ↦ rw full v
      | inr fits ↦ rw fits v
    ]

abbrev received : ReceiveChannelUnreliable → List Bytes → ReceiveChannelUnreliable × Option Bytes
received ch [] = (ch, none)
received ch (m ∷ ms) = (
  record ch { messages = ms; memory_usage_bytes = sub_u64 ch.memory_usage_bytes (length m) },
  some m,
)

pub receive_message-PairsIn :
    (now : ℕ) (ch : ReceiveChannelUnreliable) → PairsIn now ch → PairsIn now (receive_message ch).0
unfolding receive_message
receive_message-PairsIn now ch v = go ch.messages
  where
    go : (ms : List Bytes) → PairsIn now (received ch ms).0
    go [] = v
    go (m ∷ ms) = v

slice_done-PairsIn :
    (now : ℕ) (ch : ReceiveChannelUnreliable) (slice : Slice) (c : SliceConstructor)
    (r : Result (Option Bytes) ChannelError)
    → PairsIn now ch
    → PairsIn now
        (slice_done (record ch { slices = insert ch.slices slice.message_id c }) slice now r).0
unfolding slice_done
slice_done-PairsIn now ch slice c (err e) v =
    Pairs-insert now slice.message_id c ch.slices ch.slices_last_received v
slice_done-PairsIn now ch slice c (ok none) v =
    Pairs-timed now slice.message_id c ch.slices ch.slices_last_received
      (Pairs-insert now slice.message_id c ch.slices ch.slices_last_received v)
slice_done-PairsIn now ch slice c (ok (some m)) v =
    Pairs-remove now slice.message_id (insert ch.slices slice.message_id c) ch.slices_last_received
      (Pairs-insert now slice.message_id c ch.slices ch.slices_last_received v)

slice_into-PairsIn :
    (now : ℕ) (ch : ReceiveChannelUnreliable) (slice : Slice) (c : SliceConstructor)
    (r : ReceiveChannelUnreliable × Result (Unit {0}) ChannelError)
    → PairsIn now ch
    → slice_into ch slice now c ≡ returns r
    → PairsIn now r.0
unfolding slice_into
slice_into-PairsIn now ch slice c r v e =
    let (x, _, q) =
      >>=-returns (Slices.process_slice c slice.slice_index slice.payload)
        (λ (c', a).
          returns
            (slice_done (record ch { slices = insert ch.slices slice.message_id c' }) slice now a))
        e in
    let same : slice_done (record ch { slices = insert ch.slices slice.message_id x.0 }) slice now
          x.1
        ≡ r =
      cc q in
    subst (λ z. PairsIn now z.0) same (slice_done-PairsIn now ch slice x.0 x.1 v)

pub process_slice-PairsIn :
    (now : ℕ) (ch : ReceiveChannelUnreliable) (slice : Slice)
    (r : ReceiveChannelUnreliable × Result (Unit {0}) ChannelError)
    → PairsIn now ch
    → process_slice ch slice now ≡ returns r
    → PairsIn now r.0
unfolding process_slice
process_slice-PairsIn now ch slice r v e =
    let size = add_u64 ch.memory_usage_bytes (mul_u64 slice.num_slices 1200) in
    let reserved : ReceiveChannelUnreliable = record ch { memory_usage_bytes = size } in
    let new_one = Slices.new slice.message_id slice.num_slices in
    elim (Option-cases (get ch.slices slice.message_id)) [
      | inr (c, there) ↦
          let q : process_slice ch slice now ≡ slice_into ch slice now c =
            rw (there, process_slice) refl in
          slice_into-PairsIn now ch slice c r v (sym q ∙ e)
      | inl gone ↦ elim (Bool-cases (ltb ch.max_memory_usage_bytes size)) [
        | inl full ↦
            let q : process_slice ch slice now ≡ returns (ch, ok tt) =
              rw (gone, full, process_slice) refl in
            let same : Path (ReceiveChannelUnreliable × Result (Unit {0}) ChannelError) (ch, ok tt)
                r =
              cc (sym q ∙ e) in
            subst (λ z. PairsIn now z.0) same v
        | inr fits ↦
            let q : process_slice ch slice now ≡ slice_into reserved slice now new_one =
              rw (gone, fits, process_slice) refl in
            slice_into-PairsIn now reserved slice new_one r v (sym q ∙ e)
      ]
    ]
