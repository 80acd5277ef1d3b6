-- ===== src/Connection/Acks/Ranges.antt =====
-- What a list of ranges holds, and when it is well formed.
use renet.Base.{ℕ, suc, ◌≤◌, ◌<◌, ◌≡◌, Bool, false, ◌||◌, List, [], ◌∷◌, ◌++◌, arith}
use renet.Base.Word.{IsU64}
use renet.Packet.{Range}
use renet.Connection.Acks.{contains}

unfoldable pub covers : List Range → ℕ → Bool
covers [] x = false
covers (r ∷ rs) x = contains r x || covers rs x

-- Ranges from `n` on: none is empty, each ends in a `u64`, and between two there is a gap.
abbrev pub Separated : ℕ → List Range → Type 0
Separated n [] = Unit {0}
Separated n (r ∷ rs) = (n ≤ r.start) × (r.start < r.end) × IsU64 r.end × Separated (suc r.end) rs

abbrev pub IsWellFormed : List Range → Type 0
IsWellFormed = Separated 0

pub Separated-mono : (m n : ℕ) (rs : List Range) → m ≤ n → Separated n rs → Separated m rs
Separated-mono m n [] h w = tt
Separated-mono m n (r ∷ rs) h w = (omega arith, w.1, w.2, w.3)

-- Nothing below the first range is held.
pub covers_below : (n x : ℕ) (rs : List Range) → Separated n rs → x < n → covers rs x ≡ false
unfolding covers
covers_below n x [] w h = ground arith
covers_below n x (r ∷ rs) w h = ground (arith, covers_below (suc r.end) x rs)

pub covers-append :
    (rs qs : List Range) (x : ℕ) → covers (rs ++ qs) x ≡ (covers rs x || covers qs x)
unfolding covers
covers-append [] qs x = ground arith
covers-append (r ∷ rs) qs x = ground (arith, covers-append rs qs x)
