-- ===== src/Netcode/Io.antt =====
-- Cursors over buffers: renetcode/src/serialize.rs, and the writers and readers of the language's
-- own library that packet.rs and token.rs use.
pub mod Cursors
use renet.Base.{
  ℕ, zero, suc, ◌+◌, ◌-◌, ◌*◌, ◌/◌, ◌%◌, List, [], ◌∷◌, ◌++◌, leb, if◌then◌else◌, length, take,
  drop,
}
use renet.Base.Outcome.{Result, ok, err}
use renet.Packet.{Bytes}
use renet.Netcode.Error.{IoError, unexpected_eof, write_zero}

-- The bytes of a word, the lowest first.
abbrev pub to_le_bytes : ℕ → ℕ → Bytes
to_le_bytes zero n = []
to_le_bytes (suc k) n = n % 256 ∷ to_le_bytes k (n / 256)

abbrev pub from_le_bytes : Bytes → ℕ
from_le_bytes [] = 0
from_le_bytes (b ∷ bs) = b + 256 * from_le_bytes bs

-- A cursor on a buffer that is written: the bytes before the position, and the room after it.
pub record Writer : Type 0 where
  pub written : Bytes
  pub room : ℕ

abbrev pub write_all : Bytes → Writer → Result Writer IoError
write_all bs w =
    if leb (length bs) w.room
    then ok (record { written = w.written ++ bs; room = w.room - length bs })
    else err write_zero

-- A read gives a value and what is left to read.
abbrev pub Read : Type 0 → Type 0
Read A = Bytes → Result (A × Bytes) IoError

abbrev pub give : {A : Type 0} → A → Read A
give a src = ok (a, src)

infixl 5 ◌>>=◌
abbrev pub ◌>>=◌ : {A B : Type 0} → Read A → (A → Read B) → Read B
(r >>= f) src = elim (r src) [ err e ↦ err e | ok x ↦ f x.0 x.1 ]

-- `read_exact`, and `read_bytes` with the size of its array.
abbrev pub read_bytes : ℕ → Read Bytes
read_bytes n src = if leb n (length src) then ok (take n src, drop n src) else err unexpected_eof

abbrev pub read_word : ℕ → Read ℕ
read_word n = read_bytes n >>= λ buffer. give (from_le_bytes buffer)

abbrev pub read_u64 : Read ℕ
read_u64 = read_word 8

abbrev pub read_u32 : Read ℕ
read_u32 = read_word 4

abbrev pub read_u16 : Read ℕ
read_u16 = read_word 2

abbrev pub read_u8 : Read ℕ
read_u8 = read_word 1

-- An `i32` is kept as its bit pattern, below 2 ^ 32.
abbrev pub read_i32 : Read ℕ
read_i32 = read_word 4
