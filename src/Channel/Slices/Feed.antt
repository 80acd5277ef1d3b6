-- ===== src/Channel/Slices/Feed.antt =====
-- A constructor that is fed slices of one message in some order, with repeats.
use renet.Base.{
  ℕ, zero, suc, ◌≤◌, ◌<◌, ◌≡◌, refl, sym, ◌∙◌, ◌⊎◌, inl, inr, Bool, true, false, ◌||◌, Option, none,
  some, List, [], ◌∷◌, arith, if◌then◌else◌, ◌==◌, ==_iff, ==_false, length, get_elem?, set, All,
  length-set, get_elem?-set_self, get_elem?-set_ne, replicate, length-replicate,
}
use native.Mathlib.Decide.{ℕ_discrete}
use renet.Base.Flags.{trues, trues-le-length, trues_full, trues_full_of_all, trues-replicate}
use renet.Base.Outcome.{Outcome, returns, panics, Result, ok, err}
use renet.Error.{ChannelError}
use renet.Packet.{Bytes}
use renet.Channel.Pieces.{IsSliced, piece}
use renet.Channel.Slices.{SliceConstructor, new, process_slice}
use renet.Channel.Slices.Assemble.{Assembles, new-Assembles}
use renet.Channel.Slices.Progress.{partial, complete, process_slice-Progress}

-- Hands the slices `is` of the message over until one completes it.
unfoldable pub feed :
    Bytes → ℕ → SliceConstructor → List ℕ → Outcome (Result (Option Bytes) ChannelError)
feed m n c [] = returns (ok none)
feed m n c (i ∷ is) = elim (process_slice c i (piece m n i)) [
  | panics ↦ panics
  | returns (c', ok (some whole)) ↦ returns (ok (some whole))
  | returns (c', ok none) ↦ feed m n c' is
  | returns (c', err e) ↦ returns (err e)
]

abbrev pub mem : ℕ → List ℕ → Bool
mem j [] = false
mem j (i ∷ is) = i == j || mem j is

-- The flags once the slices `is` are received.
marks : List Bool → List ℕ → List Bool
marks bs [] = bs
marks bs (i ∷ is) = marks (set bs i true) is

length-marks : (is : List ℕ) (bs : List Bool) → length (marks bs is) ≡ length bs
unfolding marks
length-marks [] bs = refl
length-marks (i ∷ is) bs = length-marks is (set bs i true) ∙ length-set bs i true

trues-le-set : (bs : List Bool) (i : ℕ) → trues bs ≤ trues (set bs i true)
trues-le-set [] i = omega arith
trues-le-set (true ∷ bs) zero = omega arith
trues-le-set (false ∷ bs) zero = omega arith
trues-le-set (true ∷ bs) (suc i) = omega (arith, trues-le-set bs i)
trues-le-set (false ∷ bs) (suc i) = trues-le-set bs i

trues-le-marks : (is : List ℕ) (bs : List Bool) → trues bs ≤ trues (marks bs is)
unfolding marks
trues-le-marks [] bs = omega arith
trues-le-marks (i ∷ is) bs = omega (arith, trues-le-set bs i, trues-le-marks is (set bs i true))

mark-set :
    (bs : List Bool) (i j : ℕ)
    → j < length bs
    → get_elem? bs j ≡ some true ⊎ (i ≡ j)
    → get_elem? (set bs i true) j ≡ some true
mark-set bs i j h (inl e) = elim (ℕ_discrete i j) [
  | yes q ↦ rw q (get_elem?-set_self bs j true h)
  | no ne ↦ get_elem?-set_ne bs i j true ne ∙ e
]
mark-set bs i j h (inr q) = rw q (get_elem?-set_self bs j true h)

marks-true :
    (is : List ℕ) (bs : List Bool) (j : ℕ)
    → j < length bs
    → get_elem? bs j ≡ some true ⊎ (mem j is ≡ true)
    → get_elem? (marks bs is) j ≡ some true
unfolding marks
marks-true [] bs j h (inl e) = e
marks-true [] bs j h (inr e) = cc
marks-true (i ∷ is) bs j h (inl e) =
    marks-true is (set bs i true) j (omega (arith, length-set bs i true))
      (inl (mark-set bs i j h (inl e)))
marks-true (i ∷ is) bs j h (inr e) = elim (ℕ_discrete i j) [
  | yes q ↦
      marks-true is (set bs i true) j (omega (arith, length-set bs i true))
        (inl (mark-set bs i j h (inr q)))
  | no ne ↦
      marks-true is (set bs i true) j (omega (arith, length-set bs i true))
        (inr (rw (==_false i j ne) at e))
]

marks-other :
    (is : List ℕ) (bs : List Bool) (j : ℕ)
    → mem j is ≡ false
    → get_elem? (marks bs is) j ≡ get_elem? bs j
unfolding marks
marks-other [] bs j e = refl
marks-other (i ∷ is) bs j e = elim (ℕ_discrete i j) [
  | yes q ↦ absurd (ground (arith, q))
  | no ne ↦
      marks-other is (set bs i true) j (rw (==_false i j ne) at e) ∙ get_elem?-set_ne bs i j true ne
]

-- The message comes out exactly if the flags are all set in the end.
feed-marks :
    (m : Bytes) (n : ℕ) (is : List ℕ) (c : SliceConstructor)
    → IsSliced m n
    → Assembles m n c
    → trues c.received < n
    → All (λ i. i < n) is
    → feed m n c is ≡ returns (ok (if trues (marks c.received is) == n then some m else none))
unfolding feed marks
feed-marks m n [] c s a h b = rw (==_false (trues c.received) n (omega arith))
feed-marks m n (i ∷ is) c s a h b = elim (process_slice-Progress m n i c s a b.0 h) [
  | partial c' o a' r d t ↦ rw (o, feed) (feed-marks m n is c' s a' t b.1 ∙ rw r)
  | complete c' o t d ↦ rw (
    o,
    feed,
    (==_iff (trues (marks (set c.received i true) is)) n).1 (
        omega (
          arith,
          trues-le-marks is (set c.received i true),
          trues-le-length (marks (set c.received i true) is),
          length-marks is (set c.received i true),
          length-set c.received i true,
          a.flags,
        )),
  )
]

fresh-feed :
    (m : Bytes) (n id : ℕ) (is : List ℕ)
    → IsSliced m n
    → All (λ i. i < n) is
    → feed m n (new id n) is
      ≡ returns (ok (if trues (marks (replicate n false) is) == n then some m else none))
fresh-feed m n id is s b =
    unfold new in
    feed-marks m n is (new id n) s (new-Assembles m n id s)
      (omega (arith, trues-replicate n, s.positive)) b

-- Once every slice of a message was handed over, in any order and however often, the message is
-- given back byte for byte, and nothing fails or panics.
pub feed_complete :
    (m : Bytes) (n id : ℕ) (is : List ℕ)
    → IsSliced m n
    → All (λ i. i < n) is
    → ((j : ℕ) → j < n → mem j is ≡ true)
    → feed m n (new id n) is ≡ returns (ok (some m))
feed_complete m n id is s b every =
    fresh-feed m n id is s b
    ∙ rw (
        (==_iff (trues (marks (replicate n false) is)) n).1 (
          trues_full_of_all (marks (replicate n false) is) (λ i h.
            marks-true is (replicate n false) i (omega (arith, len, length-replicate n false))
              (inr (every i (omega (arith, len)))))
          ∙ len))
  where
    len : length (marks (replicate n false) is) ≡ n
    len = length-marks is (replicate n false) ∙ length-replicate n false

get_elem?-replicate : (n i : ℕ) → i < n → get_elem? (replicate n false) i ≡ some false
get_elem?-replicate zero i h = elim h [ ]
get_elem?-replicate (suc n) zero h = refl
get_elem?-replicate (suc n) (suc i) h = get_elem?-replicate n i (omega arith)

-- While a slice of the message is missing, no message is given back, and nothing fails or panics.
pub feed_missing :
    (m : Bytes) (n id j : ℕ) (is : List ℕ)
    → IsSliced m n
    → All (λ i. i < n) is
    → j < n
    → mem j is ≡ false
    → feed m n (new id n) is ≡ returns (ok none)
feed_missing m n id j is s b h missing =
    fresh-feed m n id is s b
    ∙ rw (
        ==_false (trues (marks (replicate n false) is)) n (λ full. absurd (
          cc (
            trues_full (marks (replicate n false) is) j (full ∙ sym len) (omega (arith, len)),
            marks-other is (replicate n false) j missing,
            get_elem?-replicate n j h,
          ))))
  where
    len : length (marks (replicate n false) is) ≡ n
    len = length-marks is (replicate n false) ∙ length-replicate n false
