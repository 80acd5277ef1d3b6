-- ===== src/Connection/Acks/Add.antt =====
-- `add_pending_ack` of renet/src/remote_connection.rs and what the ranges hold after it.
use renet.Base.{
  ℕ, suc, ◌+◌, ◌^◌, ◌≤◌, ◌<◌, ◌≡◌, refl, true, false, ◌||◌, ◌&&◌, not, none, some, List, [], ◌∷◌,
  ◌++◌, arith, length, ◌==◌, length-append, inl, inr, Option-cases, Bool-cases, ltb, ==_refl, ◌∙◌,
}
use mathlib.Core.Bool.{or_comm}
use renet.Base.Word.{add_u64-eq}
use renet.Packet.{Range}
use renet.Connection.Acks.{contains, single, merge_next, place, limit, add_pending_ack}
use renet.Connection.Acks.Ranges.{covers, Separated, IsWellFormed, Separated-mono, covers-append}

-- What one round of the loop does, when some round takes the sequence.
data Placed (s : ℕ) (r : Range) (rs rs' : List Range) : Type 0 where
  inside : r.start ≤ s → s < r.end → rs' ≡ r ∷ rs → Placed s r rs rs'
  before : r.start ≡ s + 1 → rs' ≡ record r { start = s } ∷ rs → Placed s r rs rs'
  after : r.end ≡ s → rs' ≡ merge_next (record r { end = s + 1 }) rs → Placed s r rs rs'
  gap : s + 1 < r.start → rs' ≡ single s ∷ r ∷ rs → Placed s r rs rs'
  further :
      (rest : List Range) → r.end < s → place s rs ≡ some rest → rs' ≡ r ∷ rest → Placed s r rs rs'

place-Placed :
    (s : ℕ) (r : Range) (rs rs' : List Range)
    → s + 1 < 2 ^ 64
    → place s (r ∷ rs) ≡ some rs'
    → Placed s r rs rs'
unfolding place
place-Placed s r rs rs' b e = elim (Bool-cases (contains r s)) [
  | inl yes_ ↦ inside (ground arith) (ground arith) (ground arith)
  | inr out ↦ elim (Bool-cases (r.start == s + 1)) [
    | inl e1 ↦ before (ground arith) (ground (arith, add_u64-eq s 1))
    | inr n1 ↦ elim (Bool-cases (r.end == s)) [
      | inl e2 ↦ after (ground arith) (ground (arith, add_u64-eq s 1))
      | inr n2 ↦ elim (Bool-cases (ltb (s + 1) r.start)) [
        | inl e3 ↦ gap (ground arith) (ground (arith, add_u64-eq s 1))
        | inr n3 ↦ elim (Option-cases (place s rs)) [
          | inl none_ ↦ ground (arith, add_u64-eq s 1)
          | inr (rest, there) ↦
              further rest (ground (arith, add_u64-eq s 1)) there (ground (arith, add_u64-eq s 1))
        ]
      ]
    ]
  ]
]

merge_next-Separated :
    (n m : ℕ) (r : Range) (rs : List Range)
    → n ≤ r.start
    → r.start < r.end
    → r.end ≤ m
    → m < 2 ^ 64
    → Separated m rs
    → r.end < 2 ^ 64
    → Separated n (merge_next r rs)
unfolding merge_next
merge_next-Separated n m r [] h l k b w u = ground arith
merge_next-Separated n m r (q ∷ qs) h l k b w u = ground arith

merge_next-covers :
    (n x : ℕ) (r : Range) (rs : List Range)
    → r.start < r.end
    → r.end ≤ n
    → Separated n rs
    → covers (merge_next r rs) x ≡ covers (r ∷ rs) x
unfolding merge_next covers
merge_next-covers n x r [] l k w = refl
merge_next-covers n x r (q ∷ qs) l k w = ground arith

place-Separated :
    (n s : ℕ) (rs rs' : List Range)
    → n ≤ s
    → s + 1 < 2 ^ 64
    → Separated n rs
    → place s rs ≡ some rs'
    → Separated n rs'
place-Separated n s [] rs' h b w e = unfold place in ground arith
place-Separated n s (r ∷ rs) rs' h b w e = elim (place-Placed s r rs rs' b e) [
  | inside a c q ↦ rw q w
  | before a q ↦ rw q (ground arith)
  | after a q ↦ rw q (
      merge_next-Separated n (suc r.end) (record r { end = s + 1 }) rs w.0 (omega arith)
        (omega arith) (omega arith) w.3 (omega arith))
  | gap a q ↦ rw q (ground (arith, add_u64-eq s 1))
  | further rest a t q ↦
      rw q (w.0, w.1, w.2, place-Separated (suc r.end) s rs rest (omega arith) b w.3 t)
]

place-covers :
    (n s x : ℕ) (rs rs' : List Range)
    → s + 1 < 2 ^ 64
    → Separated n rs
    → place s rs ≡ some rs'
    → covers rs' x ≡ ((s == x) || covers rs x)
unfolding covers
place-covers n s x [] rs' b w e = unfold place in ground arith
place-covers n s x (r ∷ rs) rs' b w e = elim (place-Placed s r rs rs' b e) [
  | inside a c q ↦ rw q (ground arith)
  | before a q ↦ rw q (ground arith)
  | after a q ↦ rw q (
      merge_next-covers (suc r.end) x (record r { end = s + 1 }) rs (omega arith) (omega arith) w.3
      ∙ (ground arith))
  | gap a q ↦ rw q (ground (arith, add_u64-eq s 1))
  | further rest a t q ↦ rw q (ground (arith, place-covers (suc r.end) s x rs rest b w.3 t))
]

-- A sequence that no range takes lies past them all.
place-none-Separated :
    (n s : ℕ) (rs : List Range)
    → n ≤ s
    → s + 1 < 2 ^ 64
    → Separated n rs
    → place s rs ≡ none
    → Separated n (rs ++ (single s ∷ []))
unfolding place
place-none-Separated n s [] h b w e = ground (arith, add_u64-eq s 1)
place-none-Separated n s (r ∷ rs) h b w e =
    ground (arith, add_u64-eq s 1, place-none-Separated (suc r.end) s rs)

single-covers : (s x : ℕ) → s + 1 < 2 ^ 64 → covers (single s ∷ []) x ≡ (s == x)
unfolding covers
single-covers s x b = ground (arith, add_u64-eq s 1)

append-covers :
    (qs : List Range) (s x : ℕ)
    → s + 1 < 2 ^ 64
    → covers (qs ++ (single s ∷ [])) x ≡ ((s == x) || covers qs x)
append-covers qs s x b =
    rw (covers-append qs (single s ∷ []) x, single-covers s x b) (or_comm (covers qs x) (s == x))

limit-Separated : (n : ℕ) (rs : List Range) → Separated n rs → Separated n (limit rs)
unfolding limit
limit-Separated n [] w = w
limit-Separated n (r ∷ rs) w = ground (arith, Separated-mono n (suc r.end) rs (omega arith) w.3)

limit-eq : (rs : List Range) → length rs ≤ 64 → limit rs ≡ rs
unfolding limit
limit-eq rs h = ground arith

-- The limit takes the ranges away that hold nothing new.
limit-covers : (rs : List Range) (x : ℕ) → covers (limit rs) x ≡ true → covers rs x ≡ true
unfolding limit covers
limit-covers [] x e = ground arith
limit-covers (r ∷ rs) x e = ground arith

limit-covers_last :
    (r : Range) (rs : List Range) (s : ℕ)
    → s + 1 < 2 ^ 64
    → covers (limit (r ∷ rs ++ (single s ∷ []))) s ≡ true
unfolding limit
limit-covers_last r rs s b =
    ground (arith, append-covers rs s s b, append-covers (r ∷ rs) s s b, ==_refl s)

-- After a sequence with a successor, well-formed pending acks stay non-empty ranges in ascending
-- order with gaps between them.
pub add_pending_ack-IsWellFormed :
    (rs : List Range) (s : ℕ)
    → s + 1 < 2 ^ 64
    → IsWellFormed rs
    → IsWellFormed (add_pending_ack rs s)
unfolding add_pending_ack
add_pending_ack-IsWellFormed [] s b w = ground (arith, add_u64-eq s 1)
add_pending_ack-IsWellFormed (r ∷ rs) s b w = elim (Option-cases (place s (r ∷ rs))) [
  | inl e ↦
      rw (e, add_pending_ack)
        (limit-Separated 0 (r ∷ rs ++ (single s ∷ []))
          (place-none-Separated 0 s (r ∷ rs) (omega arith) b w e))
  | inr (rs', e) ↦ rw (e, add_pending_ack) (place-Separated 0 s (r ∷ rs) rs' (omega arith) b w e)
]

-- For a sequence with a successor and fewer than 64 well-formed ranges, the pending acks after `add_pending_ack` are those before it and
-- the new sequence.
pub add_pending_ack-covers :
    (rs : List Range) (s x : ℕ)
    → s + 1 < 2 ^ 64
    → IsWellFormed rs
    → length rs < 64
    → covers (add_pending_ack rs s) x ≡ ((s == x) || covers rs x)
unfolding add_pending_ack
add_pending_ack-covers [] s x b w h = single-covers s x b ∙ (unfold covers in ground arith)
add_pending_ack-covers (r ∷ rs) s x b w h = elim (Option-cases (place s (r ∷ rs))) [
  | inl e ↦
      rw
        (
          e,
          add_pending_ack,
          limit-eq (r ∷ rs ++ (single s ∷ [])) (omega (arith, length-append rs (single s ∷ []))),
        )
        (append-covers (r ∷ rs) s x b)
  | inr (rs', e) ↦ rw (e, add_pending_ack) (place-covers 0 s x (r ∷ rs) rs' b w e)
]

covers_only_both :
    (rs : List Range) (s x : ℕ)
    → s + 1 < 2 ^ 64
    → IsWellFormed rs
    → (covers (add_pending_ack rs s) x ≡ true → ((s == x) || covers rs x) ≡ true)
      × (covers (add_pending_ack rs s) s ≡ true)
unfolding add_pending_ack
covers_only_both [] s x b w =
    (λ e. ground (arith, single-covers s x b), rw (single-covers s s b) (==_refl s))
covers_only_both (r ∷ rs) s x b w = elim (Option-cases (place s (r ∷ rs))) [
  | inl e ↦
      rw (e, add_pending_ack)
        (
          λ h. rw (append-covers (r ∷ rs) s x b) at (limit-covers (r ∷ rs ++ (single s ∷ [])) x h),
          limit-covers_last r rs s b,
        )
  | inr (rs', e) ↦
      rw (e, add_pending_ack)
        (
          λ h. rw (place-covers 0 s x (r ∷ rs) rs' b w e) at h,
          ground (arith, place-covers 0 s s (r ∷ rs) rs' b w e, ==_refl s),
        )
]

-- For a sequence with a successor and well-formed ranges of any number: nothing is acked that was not received, and what was just received is acked.
pub add_pending_ack-covers_only :
    (rs : List Range) (s x : ℕ)
    → s + 1 < 2 ^ 64
    → IsWellFormed rs
    → ((covers (add_pending_ack rs s) x && not ((s == x) || covers rs x)) ≡ false)
      × (covers (add_pending_ack rs s) s ≡ true)
add_pending_ack-covers_only rs s x b w =
    let both = covers_only_both rs s x b w in
    (
      elim (Bool-cases (covers (add_pending_ack rs s) x)) [
        | inl e ↦ rw (e, both.0 e) refl
        | inr e ↦ rw e refl
      ],
      both.1,
    )
