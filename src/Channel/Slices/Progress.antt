-- ===== src/Channel/Slices/Progress.antt =====
-- One call of `process_slice` of renet/src/channel/slice_constructor.rs on a slice of a message.
use native.Mathlib.Decide.{ℕ_discrete}
use renet.Base.{
  ℕ, zero, suc, ◌-◌, ◌<◌, ◌≡◌, refl, ap, sym, ◌∙◌, Bool, true, false, Option, none, some, List, [],
  ◌∷◌, arith, if◌then◌else◌, ◌==◌, ==_iff, ==_false, get_elem?, set,
}
use renet.Base.Flags.{trues, trues-le-length, get_elem?_lt}
use renet.Base.Word.{sub_u64, sub_u64-eq}
use renet.Base.Outcome.{Outcome, returns, ◌>>=◌, unwrap, Result, ok}
use renet.Error.{ChannelError}
use renet.Packet.{Bytes}
use renet.Channel.Pieces.{IsSliced, piece, piece_end_bounds, length-piece}
use renet.Channel.Slices.{SliceConstructor, has_valid_size, store, finish, process_slice}
use renet.Channel.Slices.Assemble.{Assembles, store-Stored, assembled}

-- What a genuine slice does: the message is complete, or some slice is still missing.
pub data Progress (m : Bytes) (n i : ℕ) (c : SliceConstructor)
    (o : Outcome (SliceConstructor × Result (Option Bytes) ChannelError)) : Type 0 where
  partial :
      (c' : SliceConstructor)
      → o ≡ returns (c', ok none)
      → Assembles m n c'
      → c'.received ≡ set c.received i true
      → c'.message_id ≡ c.message_id
      → trues c'.received < n
      → Progress m n i c o
  complete :
      (c' : SliceConstructor)
      → o ≡ returns (c', ok (some m))
      → trues (set c.received i true) ≡ n
      → c'.num_slices ≡ n
      → Progress m n i c o

finish-Progress :
    (m : Bytes) (n i : ℕ) (c c' : SliceConstructor)
    → IsSliced m n
    → Assembles m n c'
    → c'.received ≡ set c.received i true
    → c'.message_id ≡ c.message_id
    → Progress m n i c (returns (finish c'))
unfolding finish
finish-Progress m n i c c' s a r d = elim (ℕ_discrete (trues c'.received) n) [
  | yes full ↦
      complete (record c' { sliced_data = [] })
        (rw ((==_iff c'.num_received_slices c'.num_slices).1 (a.counted ∙ full ∙ sym a.count)) (
          ap (λ z. returns (record c' { sliced_data = [] }, ok (some z)))
            (assembled m n i c' s a full)))
        (rw (← r) full) a.count
  | no missing ↦
      partial c'
        (rw (
          ==_false c'.num_received_slices c'.num_slices
            (λ e. missing (sym a.counted ∙ e ∙ a.count))))
        a r d (omega (arith, trues-le-length c'.received, a.flags))
]

pub set_same : (bs : List Bool) (i : ℕ) (b : Bool) → get_elem? bs i ≡ some b → set bs i b ≡ bs
set_same [] i b e = refl
set_same (x ∷ bs) zero b e = ground arith
set_same (x ∷ bs) (suc i) b e = ap (λ l. x ∷ l) (set_same bs i b e)

piece-has_valid_size :
    (m : Bytes) (n i : ℕ) → IsSliced m n → i < n → has_valid_size (i == n - 1) (piece m n i) ≡ true
piece-has_valid_size m n i s h = ground (arith, length-piece m n i s h, piece_end_bounds m n i s h)

-- A slice of the message that the constructor is for never fails and never panics. It completes
-- the message once all slices are there, and the message is then given back whole.
pub process_slice-Progress :
    (m : Bytes) (n i : ℕ) (c : SliceConstructor)
    → IsSliced m n
    → Assembles m n c
    → i < n
    → trues c.received < n
    → Progress m n i c (process_slice c i (piece m n i))
unfolding process_slice
process_slice-Progress m n i c s a h open_ =
    rw
      (
        ap (λ z. sub_u64 z 1) a.count ∙ sub_u64-eq n 1 (omega arith) (omega arith),
        piece-has_valid_size m n i s h,
      )
      (go (get_elem?_lt c.received i (omega (arith, a.flags))))
  where
    go :
        (x : Bool) × (get_elem? c.received i ≡ some x)
        → Progress m n i c (
            unwrap (get_elem? c.received i) >>= λ seen.
            (if seen then returns c else store c i (piece m n i) (i == n - 1)) >>= λ stored.
            returns (finish stored))
    go (true, e) =
        rw (e, unwrap) (finish-Progress m n i c c s a (sym (set_same c.received i true e)) refl)
    go (false, e) =
        let (c', q, a', r, d) = store-Stored m n i c s a h e in
        rw (e, unwrap, q) (finish-Progress m n i c c' s a' r d)
