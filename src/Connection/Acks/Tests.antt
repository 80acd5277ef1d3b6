-- ===== src/Connection/Acks/Tests.antt =====
-- The unit tests of the pending acks, and the theorems at concrete inputs.
use renet.Base.{ℕ, ◌≡◌, refl, true, List, [], ◌∷◌, arith, length, zero, suc, ◌+◌}
use renet.Base.Word.{add_u64}
use renet.Packet.{Range}
use renet.Connection.Acks.{add_pending_ack, acked_largest}
use renet.Connection.Acks.Ranges.{covers, IsWellFormed}
use renet.Connection.Acks.Add.{add_pending_ack-IsWellFormed, add_pending_ack-covers}
use renet.Connection.Acks.Growth.{add_pending_ack_unlimited, receive_all, falling}
use renet.Connection.Acks.Largest.{acked_largest-covers}

abbrev range : ℕ → ℕ → Range
range a b = record { start = a; end = b }

abbrev three : List Range
three = range 0 1 ∷ range 2 5 ∷ range 7 8 ∷ []

add_pending_ack_run :
    (add_pending_ack [] 3 ≡ range 3 4 ∷ [])
    × (add_pending_ack (range 2 5 ∷ []) 0 ≡ range 0 1 ∷ range 2 5 ∷ [])
    × (add_pending_ack (range 0 1 ∷ range 2 5 ∷ []) 7 ≡ three)
    × (add_pending_ack three 1 ≡ range 0 5 ∷ range 7 8 ∷ [])
    × (add_pending_ack (range 0 6 ∷ range 7 8 ∷ []) 6 ≡ range 0 8 ∷ [])
unfolding add_pending_ack add_u64
add_pending_ack_run = (refl, refl, refl, refl, refl)

acked_largest_run :
    (acked_largest (range 0 10 ∷ []) 0 ≡ range 1 10 ∷ [])
    × (acked_largest (range 0 1 ∷ range 4 10 ∷ []) 5 ≡ range 6 10 ∷ [])
    × (acked_largest (range 0 1 ∷ range 6 10 ∷ []) 10 ≡ [])
unfolding acked_largest add_u64
acked_largest_run = (refl, refl, refl)

-- `n` ranges of one sequence each, two apart.
abbrev spaced : ℕ → ℕ → List Range
spaced zero a = []
spaced (suc n) a = range a (a + 1) ∷ spaced n (a + 2)

add_pending_ack-IsWellFormed_example : IsWellFormed (add_pending_ack three 1)
add_pending_ack-IsWellFormed_example =
    add_pending_ack-IsWellFormed three 1 (omega arith) (omega arith)

add_pending_ack-covers_example : covers (add_pending_ack three 6) 6 ≡ true
unfolding covers
add_pending_ack-covers_example =
    add_pending_ack-covers three 6 6 (omega arith) (omega arith) (omega arith)

add_pending_ack_unlimited_example : length (receive_all [] (falling 100)) ≡ 100
add_pending_ack_unlimited_example = add_pending_ack_unlimited 100 (omega arith)

acked_largest-covers_example : covers (acked_largest three 3) 4 ≡ true
unfolding covers
acked_largest-covers_example = acked_largest-covers three 3 4 (omega arith) (omega arith)
