-- ===== src/Netcode/PacketType/Sequence.antt =====
-- The number of bytes of a sequence, and the first byte of a packet (renetcode/src/packet.rs).
use renet.Base.{
  ℕ, zero, suc, ◌*◌, ◌/◌, ◌%◌, ◌^◌, ◌<◌, ◌≤◌, ◌≡◌, ◌↔◌, refl, ap, ◌∷◌, ◌==◌, ltb, not_ltb→le, take,
  arith, Bool-cases, inl, inr,
}
use renet.Base.Outcome.{ok}
use renet.Netcode.Io.{to_le_bytes}
use renet.Netcode.PacketType.{
  PacketType, connection_request, connection_denied, challenge, response, keep_alive, payload,
  disconnect, number, from_u8, bytes_required_loop, sequence_bytes_required, encode_prefix,
  decode_prefix,
}
use Prim.Native.Nat.{bit_or}

pow-positive : (n : ℕ) → 0 < 256 ^ n
pow-positive zero = omega arith
pow-positive (suc n) = omega (arith, pow-positive n)

pow_mono : (m n : ℕ) → m ≤ n → 256 ^ m ≤ 256 ^ n
pow_mono zero n h = omega (arith, pow-positive n)
pow_mono (suc m) zero h = absurd (omega arith)
pow_mono (suc m) (suc n) h = omega (arith, pow_mono m n (omega arith))

below_divisor : (s b : ℕ) → 0 < b → s / b ≡ 0 → s < b
below_divisor s b h e = grind arith

from_divisor : (s b : ℕ) → 0 < b → 0 < s / b → b ≤ s
from_divisor s b h e = grind arith

loop_iff : (k s n : ℕ) → s < 256 ^ k → (bytes_required_loop k s ≤ n) ↔ (s < 256 ^ n)
unfolding bytes_required_loop
loop_iff zero s n h = (λ _. omega (arith, pow-positive n), λ _. omega arith)
loop_iff (suc k) s n h =
    let digit : s / 256 ^ k < 256 = grind (arith, pow-positive k) in
    elim (Bool-cases ((s / 256 ^ k) % 256 == 0)) [
      | inl e ↦
          let small : s < 256 ^ k =
            below_divisor s (256 ^ k) (pow-positive k) (ground (arith, digit)) in
          rw e (loop_iff k s n small)
      | inr e ↦
          let large : 256 ^ k ≤ s =
            from_divisor s (256 ^ k) (pow-positive k) (ground (arith, digit)) in
          rw e (
            λ le. omega (arith, h, pow_mono (suc k) n le),
            λ lt. elim (Bool-cases (ltb k n)) [
              | inl more ↦ ground arith
              | inr less ↦ absurd (omega (arith, lt, large, pow_mono n k (not_ltb→le k n less)))
            ],
          )
    ]

-- The least number of bytes that hold the sequence.
pub sequence_bytes_required_iff :
    (s n : ℕ) → s < 2 ^ 64 → (sequence_bytes_required s ≤ n) ↔ (s < 256 ^ n)
unfolding sequence_bytes_required
sequence_bytes_required_iff s n h = loop_iff 8 s n h

take-to_le_bytes : (n k s : ℕ) → n ≤ k → take n (to_le_bytes k s) ≡ to_le_bytes n s
take-to_le_bytes zero k s h = refl
take-to_le_bytes (suc n) zero s h = absurd (omega arith)
take-to_le_bytes (suc n) (suc k) s h =
    ap (λ l. s % 256 ∷ l) (take-to_le_bytes n k (s / 256) (omega arith))

pub sequence_bytes_required-le : (s : ℕ) → s < 2 ^ 64 → sequence_bytes_required s ≤ 8
sequence_bytes_required-le s h = (sequence_bytes_required_iff s 8 h).1 h

-- The bytes that are written for a sequence.
pub sequence_bytes :
    (s : ℕ)
    → s < 2 ^ 64
    → take (sequence_bytes_required s) (to_le_bytes 8 s) ≡ to_le_bytes (sequence_bytes_required s) s
sequence_bytes s h = take-to_le_bytes _ 8 s (sequence_bytes_required-le s h)

pub sequence_fits : (s : ℕ) → s < 2 ^ 64 → s < 256 ^ sequence_bytes_required s
sequence_fits s h = (sequence_bytes_required_iff s _ h).0 (omega arith)

pub from_u8-number : (t : PacketType) → from_u8 (number t) ≡ ok t
unfolding from_u8
from_u8-number connection_request = refl
from_u8-number connection_denied = refl
from_u8-number challenge = refl
from_u8-number response = refl
from_u8-number keep_alive = refl
from_u8-number payload = refl
from_u8-number disconnect = refl

up_to_eight :
    (P : ℕ → Type 0) → P 0 → P 1 → P 2 → P 3 → P 4 → P 5 → P 6 → P 7 → P 8 → (n : ℕ) → n ≤ 8 → P n
up_to_eight P p0 p1 p2 p3 p4 p5 p6 p7 p8 zero h = p0
up_to_eight P p0 p1 p2 p3 p4 p5 p6 p7 p8 (suc zero) h = p1
up_to_eight P p0 p1 p2 p3 p4 p5 p6 p7 p8 (suc (suc zero)) h = p2
up_to_eight P p0 p1 p2 p3 p4 p5 p6 p7 p8 (suc (suc (suc zero))) h = p3
up_to_eight P p0 p1 p2 p3 p4 p5 p6 p7 p8 (suc (suc (suc (suc zero)))) h = p4
up_to_eight P p0 p1 p2 p3 p4 p5 p6 p7 p8 (suc (suc (suc (suc (suc zero))))) h = p5
up_to_eight P p0 p1 p2 p3 p4 p5 p6 p7 p8 (suc (suc (suc (suc (suc (suc zero)))))) h = p6
up_to_eight P p0 p1 p2 p3 p4 p5 p6 p7 p8 (suc (suc (suc (suc (suc (suc (suc zero))))))) h = p7
up_to_eight P p0 p1 p2 p3 p4 p5 p6 p7 p8 (suc (suc (suc (suc (suc (suc (suc (suc zero)))))))) h = p8
up_to_eight P p0 p1 p2 p3 p4 p5 p6 p7 p8 (suc (suc (suc (suc (suc (suc (suc (suc (suc n))))))))) h =
    absurd (omega arith)

prefix_bits :
    (t : PacketType) (n : ℕ)
    → n ≤ 8
    → decode_prefix (bit_or (number t) (n % 256 * 16 % 256)) ≡ (number t, n)
prefix_bits connection_request = up_to_eight _ refl refl refl refl refl refl refl refl refl
prefix_bits connection_denied = up_to_eight _ refl refl refl refl refl refl refl refl refl
prefix_bits challenge = up_to_eight _ refl refl refl refl refl refl refl refl refl
prefix_bits response = up_to_eight _ refl refl refl refl refl refl refl refl refl
prefix_bits keep_alive = up_to_eight _ refl refl refl refl refl refl refl refl refl
prefix_bits payload = up_to_eight _ refl refl refl refl refl refl refl refl refl
prefix_bits disconnect = up_to_eight _ refl refl refl refl refl refl refl refl refl

pub decode_prefix-encode_prefix :
    (t : PacketType) (s : ℕ)
    → s < 2 ^ 64
    → decode_prefix (encode_prefix (number t) s) ≡ (number t, sequence_bytes_required s)
unfolding encode_prefix
decode_prefix-encode_prefix t s h =
    prefix_bits t (sequence_bytes_required s) (sequence_bytes_required-le s h)
