-- ===== src/Connection/Acks/Growth.antt =====
-- How many ranges `add_pending_ack` of renet/src/remote_connection.rs keeps.
use renet.Base.{
  ℕ, zero, suc, ◌+◌, ◌*◌, ◌^◌, ◌<◌, ◌≡◌, refl, ap, ◌∙◌, some, List, [], ◌∷◌, arith, length,
}
use renet.Base.Word.{add_u64-eq}
use renet.Packet.{Range}
use renet.Connection.Acks.{single, place, add_pending_ack}

place_first :
    (r : Range) (rs : List Range) (s : ℕ)
    → s + 1 < r.start
    → r.start < r.end
    → s + 1 < 2 ^ 64
    → place s (r ∷ rs) ≡ some (single s ∷ r ∷ rs)
unfolding place
place_first r rs s h k b = ground (arith, add_u64-eq s 1)

-- A sequence below all ranges makes a range of its own.
add_first :
    (r : Range) (rs : List Range) (s : ℕ)
    → s + 1 < r.start
    → r.start < r.end
    → s + 1 < 2 ^ 64
    → add_pending_ack (r ∷ rs) s ≡ single s ∷ r ∷ rs
unfolding add_pending_ack
add_first r rs s h k b = rw (place_first r rs s h k b, add_pending_ack) refl

-- The sequences are received one after the other.
unfoldable pub receive_all : List Range → List ℕ → List Range
receive_all rs [] = rs
receive_all rs (s ∷ ss) = receive_all (add_pending_ack rs s) ss

-- 2k, 2k - 2 and so on down to 2.
abbrev pub falling : ℕ → List ℕ
falling zero = []
falling (suc k) = 2 * suc k ∷ falling k

receive_all-falling :
    (k : ℕ) (r : Range) (rs : List Range)
    → 2 * k + 1 < r.start
    → r.start < r.end
    → 2 * k + 1 < 2 ^ 64
    → length (receive_all (r ∷ rs) (falling k)) ≡ k + length (r ∷ rs)
unfolding receive_all
receive_all-falling zero r rs h o b = omega arith
receive_all-falling (suc k) r rs h o b =
    let next = single (2 * suc k) in
    let e = add_u64-eq (2 * suc k) 1 (omega arith) in
    ap (λ l. length (receive_all l (falling k)))
      (add_first r rs (2 * suc k) (omega arith) o (omega arith))
    ∙ receive_all-falling k next (r ∷ rs) (omega arith) (omega (arith, e)) (omega arith)
    ∙ omega arith

-- The limit of 64 ranges is not kept: a peer that sends every other sequence downwards from 2k, which
-- has 64 bits, makes the pending acks grow to k ranges, for every k.
pub add_pending_ack_unlimited :
    (k : ℕ) → 2 * k + 1 < 2 ^ 64 → length (receive_all [] (falling k)) ≡ k
unfolding receive_all add_pending_ack
add_pending_ack_unlimited zero b = refl
add_pending_ack_unlimited (suc k) b =
    let e = add_u64-eq (2 * suc k) 1 (omega arith) in
    receive_all-falling k (single (2 * suc k)) [] (omega arith) (omega (arith, e)) (omega arith)
    ∙ omega arith
