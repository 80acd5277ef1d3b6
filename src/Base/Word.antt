-- ===== src/Base/Word.antt =====
-- The 64-bit words `u64` and `usize`. Sums and differences wrap, as they do in a release build.
use renet.Base.{ℕ, ◌+◌, ◌-◌, ◌*◌, ◌%◌, ◌^◌, ◌≤◌, ◌<◌, ◌≡◌, arith}

abbrev pub IsU64 : ℕ → Type 0
IsU64 v = v < 2 ^ 64

unfoldable pub add_u64 : ℕ → ℕ → ℕ
add_u64 a b = (a + b) % 2 ^ 64

unfoldable pub sub_u64 : ℕ → ℕ → ℕ
sub_u64 a b = (a + 2 ^ 64 - b) % 2 ^ 64

unfoldable pub mul_u64 : ℕ → ℕ → ℕ
mul_u64 a b = a * b % 2 ^ 64

pub add_u64-eq : (a b : ℕ) → a + b < 2 ^ 64 → add_u64 a b ≡ a + b
unfolding add_u64
add_u64-eq a b h = omega arith

pub sub_u64-eq : (a b : ℕ) → b ≤ a → a < 2 ^ 64 → sub_u64 a b ≡ a - b
unfolding sub_u64
sub_u64-eq a b h k = omega arith

pub mul_u64-eq : (a b : ℕ) → a * b < 2 ^ 64 → mul_u64 a b ≡ a * b
unfolding mul_u64
mul_u64-eq a b h = omega arith
