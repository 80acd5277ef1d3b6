-- ===== src/Connection/Acks.antt =====
-- The pending acks of a connection: `add_pending_ack` and `acked_largest` of
-- renet/src/remote_connection.rs.
pub mod Ranges
pub mod Add
pub mod Growth
pub mod Largest
mod Tests
use renet.Base.{
  ℕ, ◌+◌, Bool, true, false, ◌&&◌, Option, none, some, List, [], ◌∷◌, ◌++◌, ltb, leb, ◌==◌,
  if◌then◌else◌, length, drop, map,
}
use renet.Base.Word.{add_u64}
use renet.Packet.{Range}

-- `Range::contains` and `Range::is_empty`.
abbrev pub contains : Range → ℕ → Bool
contains r x = leb r.start x && ltb x r.end

abbrev pub is_empty : Range → Bool
is_empty r = leb r.end r.start

abbrev pub single : ℕ → Range
single s = record { start = s; end = add_u64 s 1 }

-- Merges a range that has just grown at its end with the one after it.
unfoldable pub merge_next : Range → List Range → List Range
merge_next r [] = r ∷ []
merge_next r (q ∷ qs) =
    if r.end == q.start then record { start = r.start; end = q.end } ∷ qs else r ∷ q ∷ qs

-- The loop over the indices. `none` is the loop that runs to its end with no range taking the
-- sequence.
unfoldable pub place : ℕ → List Range → Option (List Range)
unfolding merge_next
place s [] = none
place s (r ∷ rs) =
    let later = place s rs in
    if contains r s
    then some (r ∷ rs)
    else if r.start == add_u64 s 1
    then some (record r { start = s } ∷ rs)
    else if r.end == s
    then some (merge_next (record r { end = add_u64 s 1 }) rs)
    else if ltb (add_u64 s 1) r.start
    then some (single s ∷ r ∷ rs)
    else elim later [ none ↦ none | some rs' ↦ some (r ∷ rs') ]

abbrev pub max_pending : ℕ
max_pending = 64

-- `remove(0)` once there are more than 64 ranges.
unfoldable pub limit : List Range → List Range
limit rs = if ltb max_pending (length rs) then drop 1 rs else rs

unfoldable pub add_pending_ack : List Range → ℕ → List Range
unfolding place limit
add_pending_ack [] s = single s ∷ []
add_pending_ack (r ∷ rs) s = elim (place s (r ∷ rs)) [
  | some rs' ↦ rs'
  | none ↦ limit (r ∷ rs ++ (single s ∷ []))
]

unfoldable pub acked_largest : List Range → ℕ → List Range
acked_largest [] l = []
acked_largest (r ∷ rs) l =
    let later = acked_largest rs l in
    if ltb l r.start
    then r ∷ rs
    else if leb r.end l
    then later
    else let r' : Range = record r { start = add_u64 l 1 } in if is_empty r' then rs else r' ∷ rs
