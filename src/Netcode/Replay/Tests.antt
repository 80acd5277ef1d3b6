-- ===== src/Netcode/Replay/Tests.antt =====
-- The unit test of the replay protection in small, and the theorems at concrete inputs.
use renet.Base.{ℕ, ◌≡◌, refl, true, false, List, [], ◌∷◌, arith, length-replicate, ltb}
use renet.Base.Word.{add_u64}
use renet.Netcode.Replay.{empty, new, already_received, advance_sequence}
use renet.Netcode.Replay.Window.{accept, advance-refused, accept-fresh}

abbrev arrivals : List ℕ
arrivals = 0 ∷ 1 ∷ 300 ∷ 2 ∷ 299 ∷ []

already_received_run :
    (already_received (accept new arrivals) 300 ≡ true)
    × (already_received (accept new arrivals) 44 ≡ true)
    × (already_received (accept new arrivals) 45 ≡ false)
    × (already_received (accept new arrivals) 1000 ≡ false)
unfolding accept new already_received advance_sequence add_u64
already_received_run = (refl, refl, refl, refl)

advance-refused_example : already_received (accept (advance_sequence new 7) (8 ∷ 263 ∷ [])) 7 ≡ true
unfolding new
advance-refused_example =
    advance-refused new 7 (8 ∷ 263 ∷ []) (length-replicate 256 empty) (omega arith) (omega arith)

accept-fresh_example :
    already_received (accept new arrivals) 45 ≡ ltb 300 (accept new arrivals).most_recent_sequence
accept-fresh_example = accept-fresh arrivals 45 (omega arith) (omega arith)
