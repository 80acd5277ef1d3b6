-- ===== src/Packet/Wire.antt =====
-- Reading and writing buffers with the crate octets, which is a parameter: how it lays out numbers.
pub mod Encoded
pub mod Layout
use renet.Base.{
  ℕ, ◌+◌, ◌-◌, ◌%◌, ◌^◌, ◌≤◌, ◌<◌, ◌≡◌, refl, Bool, true, false, Option, none, some, List, [], ◌∷◌,
  ◌++◌, ltb, leb, if◌then◌else◌, length,
}
use renet.Base.Outcome.{Outcome, returns, panics, Result, ok, err}
use renet.Error.{SerializationError, buffer_too_short}
use renet.Packet.{Bytes}

-- The bytes of a number, and the number and the rest of a buffer that is long enough.
pub record Octets : Type 0 where
  pub u8 : ℕ → Bytes
  pub u16 : ℕ → Bytes
  pub varint : ℕ → Bytes
  pub get_u8 : Bytes → Option (ℕ × Bytes)
  pub get_u16 : Bytes → Option (ℕ × Bytes)
  pub get_varint : Bytes → Option (ℕ × Bytes)
  pub get_bytes : ℕ → Bytes → Option (Bytes × Bytes)

-- What was written is read back, whatever follows it.
pub record ReadsBack (o : Octets) : Type 0 where
  pub u8 : (n : ℕ) (rest : Bytes) → n < 2 ^ 8 → o.get_u8 (o.u8 n ++ rest) ≡ some (n, rest)
  pub u16 : (n : ℕ) (rest : Bytes) → n < 2 ^ 16 → o.get_u16 (o.u16 n ++ rest) ≡ some (n, rest)
  pub varint :
      (n : ℕ) (rest : Bytes) → n < 2 ^ 62 → o.get_varint (o.varint n ++ rest) ≡ some (n, rest)
  pub bytes : (bs rest : Bytes) → o.get_bytes (length bs) (bs ++ rest) ≡ some (bs, rest)

-- A varint has 62 bits.
abbrev pub HasBounds : Octets → Type 0
HasBounds o = (b rest : Bytes) (n : ℕ) → o.get_varint b ≡ some (n, rest) → n < 2 ^ 62

-- A buffer that is written, and how many bytes are left in it.
pub record Buffer : Type 0 where
  pub written : Bytes
  pub left : ℕ

abbrev pub Put : Type 0
Put = Buffer → Outcome (Result Buffer SerializationError)

abbrev pub put : Bytes → Put
put bs b =
    if leb (length bs) b.left
    then returns (ok (record { written = b.written ++ bs; left = b.left - length bs }))
    else returns (err buffer_too_short)

abbrev pub put_nothing : Put
put_nothing b = returns (ok b)

-- The second call, unless `?` returns the first one's error.
abbrev pub next :
    Outcome (Result Buffer SerializationError) → Put → Outcome (Result Buffer SerializationError)
next panics q = panics
next (returns (err e)) q = returns (err e)
next (returns (ok b)) q = q b

infixr 4 ◌>>◌
abbrev pub ◌>>◌ : Put → Put → Put
(p >> q) b = next (p b) q

-- `put_varint` of a number of more than 62 bits panics.
abbrev pub put_varint : Octets → ℕ → Put
put_varint o n b = if ltb n (2 ^ 62) then put (o.varint n) b else panics

abbrev pub Get {ℓ} : Type ℓ → Type ℓ
Get A = Bytes → Result (A × Bytes) SerializationError

abbrev pub give : {A : Type 0} → A → Get A
give a b = ok (a, b)

abbrev pub fail : {A : Type 0} → SerializationError → Get A
fail e b = err e

abbrev pub get : {A : Type 0} → (Bytes → Option (A × Bytes)) → Get A
get f b = elim (f b) [ none ↦ err buffer_too_short | some x ↦ ok x ]

infixl 5 ◌>>=◌
abbrev pub ◌>>=◌ : {A B : Type 0} → Get A → (A → Get B) → Get B
(r >>= f) b = elim (r b) [ err e ↦ err e | ok x ↦ f x.0 x.1 ]

abbrev pub get_bytes_with_varint_length : Octets → Get Bytes
get_bytes_with_varint_length o = get o.get_varint >>= λ len. get (o.get_bytes len)
