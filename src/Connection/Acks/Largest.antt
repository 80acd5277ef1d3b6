-- ===== src/Connection/Acks/Largest.antt =====
-- `acked_largest` of renet/src/remote_connection.rs and what the ranges hold after it.
use renet.Base.{ℕ, suc, ◌+◌, ◌^◌, ◌<◌, ◌≡◌, ◌&&◌, List, [], ◌∷◌, arith, ltb}
use renet.Base.Word.{add_u64-eq}
use renet.Packet.{Range}
use renet.Connection.Acks.{acked_largest}
use renet.Connection.Acks.Ranges.{covers, Separated, IsWellFormed, Separated-mono, covers_below}

acked_largest-Separated :
    (n l : ℕ) (rs : List Range) → l + 1 < 2 ^ 64 → Separated n rs → Separated n (acked_largest rs l)
unfolding acked_largest
acked_largest-Separated n l [] b w = tt
acked_largest-Separated n l (r ∷ rs) b w = ground (
  arith,
  add_u64-eq l 1,
  Separated-mono n (suc r.end) rs (omega arith) w.3,
  acked_largest-Separated n l rs b (Separated-mono n (suc r.end) rs (omega arith) w.3),
)

-- `acked_largest` of a sequence with a successor keeps well-formed pending acks well formed.
pub acked_largest-IsWellFormed :
    (rs : List Range) (l : ℕ) → l + 1 < 2 ^ 64 → IsWellFormed rs → IsWellFormed (acked_largest rs l)
acked_largest-IsWellFormed rs l b w = acked_largest-Separated 0 l rs b w

acked_largest-covers_from :
    (n l x : ℕ) (rs : List Range)
    → l + 1 < 2 ^ 64
    → Separated n rs
    → covers (acked_largest rs l) x ≡ (ltb l x && covers rs x)
unfolding acked_largest covers
acked_largest-covers_from n l x [] b w = ground arith
acked_largest-covers_from n l x (r ∷ rs) b w = ground (
  arith,
  add_u64-eq l 1,
  acked_largest-covers_from (suc r.end) l x rs b w.3,
  covers_below (suc r.end) x rs w.3,
)

-- After `acked_largest` of a sequence with a successor, well-formed pending acks are those above the given sequence that were pending.
pub acked_largest-covers :
    (rs : List Range) (l x : ℕ)
    → l + 1 < 2 ^ 64
    → IsWellFormed rs
    → covers (acked_largest rs l) x ≡ (ltb l x && covers rs x)
acked_largest-covers rs l x b w = acked_largest-covers_from 0 l x rs b w
