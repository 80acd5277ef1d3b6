-- ===== src/Channel/Reliable/Receive/Genuine.antt =====
-- `process_slice` of renet/src/channel/reliable.rs on slices that a sender cut.
use renet.Base.{
  ℕ, ◌+◌, ◌*◌, ◌<◌, ◌≡◌, refl, sym, ◌∙◌, ap, inl, inr, false, none, some, List, arith, length,
  Bool-cases, Option-cases, ltb, ◌||◌, ==_refl, not_ltb→le, subst,
}
use renet.Base.Flags.{trues, trues-replicate}
use renet.Base.Word.{add_u64, add_u64-eq, sub_u64, sub_u64-eq, mul_u64, mul_u64-eq}
use renet.Base.Map.{Map, get, insert, remove, contains_key, get-insert, remove-insert_self}
use renet.Base.Map.Order.{Ascending, insert-Ascending, remove-Ascending}
use renet.Base.Map.Sum.{total, total-insert, total-insert_same, total-insert_over, total-remove}
use renet.Base.Map.Entries.{Entries, Entries-insert, Entries-remove, Entries-get}
use renet.Base.Outcome.{Result, ok, err, Returns, Returns-imp}
use renet.Error.{ChannelError}
use renet.Packet.{Bytes, Slice}
use renet.Channel.Pieces.{IsSliced}
use renet.Channel.Slices
use renet.Channel.Slices.{SliceConstructor}
use renet.Channel.Slices.Assemble.{Assembles, new-Assembles}
use renet.Channel.Slices.Progress.{Progress, partial, complete, process_slice-Progress}
use renet.Channel.Reliable.Send.Loop.{IsPiece}
use renet.Channel.Reliable.Receive.{
  ReceiveChannelReliable, process_message, slice_done, slice_into, process_slice,
}
use renet.Channel.Reliable.Receive.Slicing.{
  slice_bytes, IsAssembling, ReceiverInv, Stays, Keeps, process_message_err,
}
use renet.Channel.Reliable.Receive.Messages.{MessagesInv, Kept, process_message-Kept}

-- The message determines how many slices there are.
cut_same : (m : Bytes) (a b : ℕ) → IsSliced m a → IsSliced m b → a ≡ b
cut_same m a b s t = omega (arith, s.over, s.within, t.over, t.within, s.positive, t.positive)

module _ (sent : List Bytes) (slice : Slice) (p : IsPiece sent slice) where
  abbrev id : ℕ
  id = slice.message_id

  abbrev n : ℕ
  n = slice.num_slices

  -- The constructor `c` is counted in the memory usage, whether it is in `slices` already or not.
  record Ready (ch : ReceiveChannelReliable) (c : SliceConstructor) : Type 0 where
    holds : MessagesInv sent (total slice_bytes (insert ch.slices id c)) ch
    slices : Entries (IsAssembling sent) ch.slices
    ascending : Ascending ch.slices
    count : c.num_slices ≡ n
    assembles : Assembles p.message n c
    open_ : trues c.received < n

  with_slice : ReceiveChannelReliable → SliceConstructor → ReceiveChannelReliable
  with_slice ch c = record ch { slices = insert ch.slices id c }

  partial-Stays :
      (ch : ReceiveChannelReliable) (c c' : SliceConstructor)
      → Ready ch c
      → Assembles p.message n c'
      → trues c'.received < n
      → Stays sent ch (record ch { slices = insert ch.slices id c' })
  partial-Stays ch c c' v a t =
      let e = total-insert_same slice_bytes ch.slices id c' c (omega (arith, a.count, v.count)) in
      record {
        inv = record {
          holds = record {
            known = v.holds.known;
            ascending = v.holds.ascending;
            tracked = v.holds.tracked;
            accounts = omega (arith, e, v.holds.accounts);
            limit = v.holds.limit;
            room = v.holds.room;
          };
          slices =
              Entries-insert (IsAssembling sent) ch.slices id c'
                (record {
                  message = p.message;
                  known = p.known;
                  cut = subst (IsSliced p.message) (sym a.count) p.cut;
                  assembles = subst (λ z. Assembles p.message z c') (sym a.count) a;
                  open_ = omega (arith, a.count, t);
                })
                v.slices;
          ascending = insert-Ascending ch.slices id c' v.ascending;
        };
        oldest = refl;
        in_order = λ q. q;
      }

  -- The slices' memory is given back before the message's is taken.
  complete-Keeps :
      (ch : ReceiveChannelReliable) (c c' : SliceConstructor)
      → Ready ch c
      → c'.num_slices ≡ n
      → Keeps sent ch
          (slice_done (record ch { slices = insert ch.slices id c' }) slice (ok (some p.message)))
  unfolding slice_done
  complete-Keeps ch c c' v q = go (process_message freed p.message id).1 refl
    where
      freed : ReceiveChannelReliable
      freed = record ch {
        slices = insert ch.slices id c';
        memory_usage_bytes = sub_u64 ch.memory_usage_bytes (mul_u64 n 1200);
      }

      rest : Map SliceConstructor
      rest = remove ch.slices id

      gone : remove (insert ch.slices id c') id ≡ rest
      gone = remove-insert_self ch.slices id c'

      total_rest : total slice_bytes rest + n * 1200 ≡ total slice_bytes (insert ch.slices id c)
      total_rest = omega (
        arith,
        ap (total slice_bytes) gone,
        total-remove slice_bytes (insert ch.slices id c') id c'
            (insert-Ascending ch.slices id c' v.ascending)
            (get-insert ch.slices id id c' ∙ rw (==_refl id)),
        total-insert_same slice_bytes ch.slices id c' c (omega (arith, q, v.count)),
        q,
      )

      freed-holds : MessagesInv sent (total slice_bytes rest) freed
      freed-holds =
          let m = mul_u64-eq n 1200 (omega (arith, p.cut)) in
          let d =
            sub_u64-eq ch.memory_usage_bytes (mul_u64 n 1200)
              (omega (arith, m, v.holds.accounts, total_rest))
              (omega (arith, v.holds.limit, v.holds.room)) in
          record {
            known = v.holds.known;
            ascending = v.holds.ascending;
            tracked = v.holds.tracked;
            accounts = omega (arith, d, m, v.holds.accounts, total_rest);
            limit = omega (arith, d, v.holds.limit);
            room = v.holds.room;
          }

      k : Kept sent (total slice_bytes rest) freed (process_message freed p.message id).0
      k =
          process_message-Kept sent (total slice_bytes rest) freed p.message id freed-holds p.known
            (omega (arith, p.cut))

      left : remove (process_message freed p.message id).0.slices id ≡ rest
      left = ap (λ z. remove z id) k.slices ∙ gone

      go :
          (r : Result (Unit {0}) ChannelError)
          → (process_message freed p.message id).1 ≡ r
          → Keeps sent ch (elim r [
            | ok _ ↦ (
              record (process_message freed p.message id).0 {
                slices = remove (process_message freed p.message id).0.slices id;
              },
              ok tt,
            )
            | err e ↦ ((process_message freed p.message id).0, err e)
          ])
      go (ok _) e = record {
        inv = record {
          holds = record {
            known = k.inv.known;
            ascending = k.inv.ascending;
            tracked = k.inv.tracked;
            accounts =
                k.inv.accounts
                ∙ ap
                    (λ z.
                      total length (process_message freed p.message id).0.messages
                      + total slice_bytes z)
                    (sym left);
            limit = k.inv.limit;
            room = k.inv.room;
          };
          slices =
              subst (Entries (IsAssembling sent)) (sym left)
                (Entries-remove (IsAssembling sent) ch.slices id v.slices);
          ascending = subst Ascending (sym left) (remove-Ascending ch.slices id v.ascending);
        };
        oldest = k.oldest;
        in_order = k.in_order;
      }
      go (err x) e = process_message_err freed p.message id x e

  slice_into-Keeps :
      (ch : ReceiveChannelReliable) (c : SliceConstructor)
      → Ready ch c
      → Returns (Keeps sent ch) (slice_into ch slice c)
  unfolding slice_into
  slice_into-Keeps ch c v =
      elim (subst
        (λ b. Progress p.message n slice.slice_index c (Slices.process_slice c slice.slice_index b))
        (sym p.payload)
        (process_slice-Progress p.message n slice.slice_index c p.cut v.assembles p.index
          v.open_)) [
            | partial c' o a r d t ↦
                rw o (_, refl, unfold slice_done in partial-Stays ch c c' v a t)
            | complete c' o t q ↦ rw o (_, refl, complete-Keeps ch c c' v q)
          ]

  known-Ready :
      (ch : ReceiveChannelReliable) (c : SliceConstructor)
      → ReceiverInv sent ch
      → get ch.slices id ≡ some c
      → Ready ch c
  known-Ready ch c v e =
      let a = Entries-get (IsAssembling sent) ch.slices id c v.slices e in
      let m : a.message ≡ p.message = cc (a.known, p.known) in
      let q : c.num_slices ≡ n =
        cut_same p.message c.num_slices n (subst (λ z. IsSliced z c.num_slices) m a.cut) p.cut in
      let o = total-insert_over slice_bytes ch.slices id c c v.ascending e in
      record {
        holds = record {
          known = v.holds.known;
          ascending = v.holds.ascending;
          tracked = v.holds.tracked;
          accounts = omega (arith, o, v.holds.accounts);
          limit = v.holds.limit;
          room = v.holds.room;
        };
        slices = v.slices;
        ascending = v.ascending;
        count = q;
        assembles =
            subst (λ z. Assembles z n c) m (subst (λ z. Assembles a.message z c) q a.assembles);
        open_ = omega (arith, a.open_, q);
      }

  abbrev reserved : ReceiveChannelReliable → ReceiveChannelReliable
  reserved ch = record ch { memory_usage_bytes = add_u64 ch.memory_usage_bytes (mul_u64 n 1200) }

  fresh-Ready :
      (ch : ReceiveChannelReliable)
      → ReceiverInv sent ch
      → get ch.slices id ≡ none
      → ltb ch.max_memory_usage_bytes (add_u64 ch.memory_usage_bytes (mul_u64 n 1200)) ≡ false
      → Ready (reserved ch) (Slices.new id n)
  unfolding Slices.new
  fresh-Ready ch v e fits =
      let m = mul_u64-eq n 1200 (omega (arith, p.cut)) in
      let s =
        add_u64-eq ch.memory_usage_bytes (mul_u64 n 1200)
          (omega (arith, m, v.holds.limit, v.holds.room, p.cut)) in
      record {
        holds = record {
          known = v.holds.known;
          ascending = v.holds.ascending;
          tracked = v.holds.tracked;
          accounts = omega (
            arith,
            s,
            m,
            v.holds.accounts,
            total-insert slice_bytes ch.slices id (Slices.new id n) e,
          );
          limit =
              not_ltb→le ch.max_memory_usage_bytes (add_u64 ch.memory_usage_bytes (mul_u64 n 1200))
                fits;
          room = v.holds.room;
        };
        slices = v.slices;
        ascending = v.ascending;
        count = refl;
        assembles = new-Assembles p.message n id p.cut;
        open_ = omega (arith, trues-replicate n, p.cut);
      }

  from_reserved :
      (ch : ReceiveChannelReliable) (r : ReceiveChannelReliable × Result (Unit {0}) ChannelError)
      → Keeps sent (reserved ch) r
      → Keeps sent ch r
  from_reserved ch (ch', ok _) k = record { inv = k.inv; oldest = k.oldest; in_order = k.in_order }
  from_reserved ch (ch', err e) k = k

  -- A slice of a message that was sent never panics and never is invalid. It keeps the receiver's
  -- invariant and leaves the oldest pending id, or the channel's memory is exhausted.
  pub process_slice-Keeps :
      (ch : ReceiveChannelReliable)
      → ReceiverInv sent ch
      → Returns (Keeps sent ch) (process_slice ch slice)
  unfolding process_slice
  process_slice-Keeps ch v =
      elim (Bool-cases (contains_key ch.messages id || ltb id ch.oldest_pending_message_id)) [
        | inl old ↦ rw old (_, refl, record { inv = v; oldest = refl; in_order = λ q. q })
        | inr new_id ↦ rw new_id (elim (Option-cases (get ch.slices id)) [
          | inl e ↦
              rw e
                (elim (Bool-cases (
                  ltb ch.max_memory_usage_bytes (add_u64 ch.memory_usage_bytes (mul_u64 n 1200)))) [
                    | inl full ↦ rw full (_, refl, refl)
                    | inr fits ↦ rw fits (
                        Returns-imp (Keeps sent (reserved ch)) (Keeps sent ch)
                          (slice_into (reserved ch) slice (Slices.new id n))
                          (slice_into-Keeps (reserved ch) (Slices.new id n)
                            (fresh-Ready ch v e fits))
                          (from_reserved ch))
                  ])
          | inr (c, e) ↦ rw e (slice_into-Keeps ch c (known-Ready ch c v e))
        ])
      ]
