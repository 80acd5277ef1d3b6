-- ===== src/Channel/Reliable/Send/Acks.antt =====
-- What an ack does to the sender. A connection acks a small message for the packet that carried it,
-- and a slice for the packet that carried that slice.
use renet.Base.{
  ℕ, ◌+◌, ◌≢◌, ◌≤◌, ◌<◌, ◌≡◌, refl, ◌∙◌, ap, inl, inr, Bool, true, false, none, some, List, arith,
  length, get_elem?, set, length-set, Option-cases, ◌==◌, ==_iff, ==_false, ==_refl, if◌then◌else◌,
}
use native.Mathlib.Decide.{ℕ_discrete}
use renet.Base.Flags.{trues, trues-set, get_elem?_lt}
use renet.Base.Word.{add_u64, add_u64-eq, sub_u64, sub_u64-eq}
use renet.Base.Map.{get, insert, remove, get-remove}
use renet.Base.Map.Order.{remove-Ascending, insert-Ascending}
use renet.Base.Map.Sum.{total-remove, total-insert_over}
use renet.Base.Map.Entries.{Entries-insert, Entries-remove, Entries-get}
use renet.Base.Outcome.{unwrap, Returns}
use renet.Packet.{Bytes}
use renet.Channel.Pieces.{IsSliced}
use renet.Channel.Reliable.Send.{
  SlicedMessage, UnackedMessage, small, sliced, SendChannelReliable, process_message_ack, ack_slice,
  process_slice_message_ack,
}
use renet.Channel.Reliable.Send.Sends.{UnackedSlices, IsUnacked}
use renet.Channel.Reliable.Send.Accounts.{size_of, SenderInv}

-- What the ack of the slice `i` of the message `id` does: nothing for a message that is not unacked,
-- and for a slice that was acked; else it marks the slice, and with the last one it drops the
-- message and gives its memory back.
pub data AcksSlice (ch : SendChannelReliable) (id i : ℕ) (ch' : SendChannelReliable) : Type 0 where
  not_there : get ch.unacked_messages id ≡ none → ch' ≡ ch → AcksSlice ch id i ch'
  again :
      (u : SlicedMessage)
      → get ch.unacked_messages id ≡ some (sliced u)
      → get_elem? u.acked i ≡ some true
      → ch' ≡ ch
      → AcksSlice ch id i ch'
  one_more :
      (u : SlicedMessage)
      → get ch.unacked_messages id ≡ some (sliced u)
      → get_elem? u.acked i ≡ some false
      → trues u.acked + 1 < u.num_slices
      → ch' ≡ record ch {
        unacked_messages = insert ch.unacked_messages id (
            sliced
              (record u { acked = set u.acked i true; num_acked_slices = u.num_acked_slices + 1 }));
      }
      → AcksSlice ch id i ch'
  last_one :
      (u : SlicedMessage)
      → get ch.unacked_messages id ≡ some (sliced u)
      → get_elem? u.acked i ≡ some false
      → trues u.acked + 1 ≡ u.num_slices
      → ch'.unacked_messages ≡ remove ch.unacked_messages id
      → ch'.memory_usage_bytes + length u.message ≡ ch.memory_usage_bytes
      → AcksSlice ch id i ch'

module _ (sent : List Bytes) (now : ℕ) (ch : SendChannelReliable) (v : SenderInv sent now ch) where
  -- Without the message its bytes are free again.
  removed :
      (id : ℕ) (u : UnackedMessage)
      → get ch.unacked_messages id ≡ some u
      → SenderInv sent now (record ch {
        unacked_messages = remove ch.unacked_messages id;
        memory_usage_bytes = sub_u64 ch.memory_usage_bytes (size_of u);
      })
  removed id u e =
      let t = total-remove size_of ch.unacked_messages id u v.ascending e in
      let d =
        sub_u64-eq ch.memory_usage_bytes (size_of u) (omega (arith, t, v.accounts))
          (omega (arith, v.limit, v.room)) in
      record {
        next = v.next;
        words = v.words;
        entries = Entries-remove (IsUnacked sent now) ch.unacked_messages id v.entries;
        ascending = remove-Ascending ch.unacked_messages id v.ascending;
        accounts = omega (arith, d, t, v.accounts);
        limit = omega (arith, d, v.limit);
        room = v.room;
      }

  -- The ack of a small message that was sent returns: the message is unacked no more, whether it
  -- was or not.
  pub process_message_ack-Returns :
      (id : ℕ) (m : Bytes)
      → get_elem? sent id ≡ some m
      → length m ≤ 1200
      → Returns
          (λ ch'. SenderInv sent now ch' × (get ch'.unacked_messages id ≡ none))
          (process_message_ack ch id)
  unfolding process_message_ack
  process_message_ack-Returns id m e h = elim (Option-cases (get ch.unacked_messages id)) [
    | inl gone ↦ rw (gone, process_message_ack) (ch, refl, (v, gone))
    | inr (u, there) ↦ go u there
  ]
    where
      cleared : (get (remove ch.unacked_messages id) id ≡ none)
      cleared = rw (get-remove ch.unacked_messages id id, ==_refl id)

      go :
          (u : UnackedMessage)
          → get ch.unacked_messages id ≡ some u
          → Returns
              (λ ch'. SenderInv sent now ch' × (get ch'.unacked_messages id ≡ none))
              (process_message_ack ch id)
      go (small p l) there =
          rw (there, process_message_ack) (_, refl, (removed id (small p l) there, cleared))
      go (sliced u) there =
          let k =
            Entries-get (IsUnacked sent now) ch.unacked_messages id (sliced u) v.entries there in
          let same : u.message ≡ m = cc (k.known, e) in
          absurd (omega (arith, k.long, ap length same))

  freed :
      (id : ℕ) (u : SlicedMessage)
      → get ch.unacked_messages id ≡ some (sliced u)
      → sub_u64 ch.memory_usage_bytes (length u.message) + length u.message ≡ ch.memory_usage_bytes
  freed id u e =
      let t = total-remove size_of ch.unacked_messages id (sliced u) v.ascending e in
      let d =
        sub_u64-eq ch.memory_usage_bytes (length u.message) (omega (arith, t, v.accounts))
          (omega (arith, v.limit, v.room)) in
      omega (arith, d, t, v.accounts)

  -- A slice's message: acked before, one slice more, or all of them.
  ack_slice-Returns :
      (id i : ℕ) (u : SlicedMessage)
      → get ch.unacked_messages id ≡ some (sliced u)
      → i < u.num_slices
      → Returns (λ ch'. SenderInv sent now ch' × AcksSlice ch id i ch') (ack_slice ch id i u)
  unfolding ack_slice
  ack_slice-Returns id i u there h =
      let (b, e) = get_elem?_lt u.acked i (omega (arith, k.flags)) in
      rw (e, unwrap) (_, refl, go b e)
    where
      k : UnackedSlices sent now id u
      k = Entries-get (IsUnacked sent now) ch.unacked_messages id (sliced u) v.entries there

      u' : SlicedMessage
      u' = record u { acked = set u.acked i true; num_acked_slices = add_u64 u.num_acked_slices 1 }

      counted :
          get_elem? u.acked i ≡ some false
          → (u'.num_acked_slices ≡ trues u'.acked) × (trues u'.acked ≤ u.num_slices)
      counted e =
          omega (
            arith,
            trues-set u.acked i e,
            k.counted,
            add_u64-eq u.num_acked_slices 1,
            k.open_,
            k.cut,
          )

      incremented : get_elem? u.acked i ≡ some false → u'.num_acked_slices ≡ u.num_acked_slices + 1
      incremented e = omega (arith, k.counted, add_u64-eq u.num_acked_slices 1, k.open_, k.cut)

      finished :
          get_elem? u.acked i ≡ some false
          → u'.num_acked_slices ≡ u.num_slices
          → trues u.acked + 1 ≡ u.num_slices
      finished e all = omega (arith, k.counted, incremented e, all)

      unfinished :
          get_elem? u.acked i ≡ some false
          → u'.num_acked_slices ≢ u.num_slices
          → trues u.acked + 1 < u.num_slices
      unfinished e left = omega (arith, k.counted, incremented e, left, k.open_)

      more :
          get_elem? u.acked i ≡ some false
          → trues u'.acked < u.num_slices
          → SenderInv sent now
              (record ch { unacked_messages = insert ch.unacked_messages id (sliced u') })
      more e l =
          let t =
            total-insert_over size_of ch.unacked_messages id (sliced u') (sliced u) v.ascending
              there in
          record {
            next = v.next;
            words = v.words;
            entries =
                Entries-insert (IsUnacked sent now) ch.unacked_messages id (sliced u')
                  (record {
                    known = k.known;
                    long = k.long;
                    cut = k.cut;
                    flags = length-set u.acked i true ∙ k.flags;
                    counted = (counted e).0;
                    open_ = l;
                    times = k.times;
                    past = k.past;
                  })
                  v.entries;
            ascending = insert-Ascending ch.unacked_messages id (sliced u') v.ascending;
            accounts = omega (arith, t, v.accounts);
            limit = v.limit;
            room = v.room;
          }

      go :
          (b : Bool)
          → get_elem? u.acked i ≡ some b
          → let ch' =
              if b
              then ch
              else if u'.num_acked_slices == u'.num_slices
              then record ch {
                memory_usage_bytes = sub_u64 ch.memory_usage_bytes (length u.message);
                unacked_messages = remove ch.unacked_messages id;
              }
              else record ch { unacked_messages = insert ch.unacked_messages id (sliced u') } in
            SenderInv sent now ch' × AcksSlice ch id i ch'
      go true e = (v, again u there e refl)
      go false e = elim (ℕ_discrete u'.num_acked_slices u'.num_slices) [
        | yes all ↦ rw ((==_iff u'.num_acked_slices u'.num_slices).1 all) (
          removed id (sliced u) there,
          last_one u there e (finished e all) refl (freed id u there),
        )
        | no some_left ↦ rw (==_false u'.num_acked_slices u'.num_slices some_left) (
          more e (omega (arith, counted e, some_left)),
          one_more u there e (unfinished e some_left) (
              ap
                (λ n. record ch {
                  unacked_messages =
                      insert ch.unacked_messages id
                        (sliced (record u { acked = set u.acked i true; num_acked_slices = n }));
                })
                (incremented e)),
        )
      ]

  -- The ack of a slice that was sent returns and keeps the sender's invariant. It changes nothing if
  -- the message is unacked no more or the slice was acked before. Else it marks this slice and counts
  -- it; when all others were acked, the message is unacked no more and its memory is free again.
  pub process_slice_message_ack-Returns :
      (id i n : ℕ) (m : Bytes)
      → get_elem? sent id ≡ some m
      → 1200 < length m
      → IsSliced m n
      → i < n
      → Returns
          (λ ch'. SenderInv sent now ch' × AcksSlice ch id i ch')
          (process_slice_message_ack ch id i)
  unfolding process_slice_message_ack
  process_slice_message_ack-Returns id i n m e h s l =
      elim (Option-cases (get ch.unacked_messages id)) [
        | inl gone ↦ rw (gone, process_slice_message_ack) (ch, refl, (v, not_there gone refl))
        | inr (u, there) ↦ go u there
      ]
    where
      go :
          (u : UnackedMessage)
          → get ch.unacked_messages id ≡ some u
          → Returns
              (λ ch'. SenderInv sent now ch' × AcksSlice ch id i ch')
              (process_slice_message_ack ch id i)
      go (small p t) there =
          let k =
            Entries-get (IsUnacked sent now) ch.unacked_messages id (small p t) v.entries there in
          let same : p ≡ m = cc (k.0, e) in absurd (omega (arith, k.1, ap length same))
      go (sliced u) there =
          let k =
            Entries-get (IsUnacked sent now) ch.unacked_messages id (sliced u) v.entries there in
          let same : u.message ≡ m = cc (k.known, e) in
          rw (there, process_slice_message_ack)
            (ack_slice-Returns id i u there
              (omega (arith, ap length same, k.cut.over, k.cut.within, s.over, s.within)))
