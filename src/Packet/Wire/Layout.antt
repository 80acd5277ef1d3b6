-- ===== src/Packet/Wire/Layout.antt =====
-- A simple layout of numbers, for the tests: a varint is one place.
use renet.Base.{
  ℕ, ◌+◌, ◌*◌, ◌/◌, ◌%◌, ◌^◌, ◌<◌, ◌≡◌, refl, ap, true, Option, none, some, [], ◌∷◌, ◌++◌, leb, ltb,
  ltb→lt, Bool-cases, inl, inr, subst, if◌then◌else◌, length, take, drop, take-append, drop-append,
  length-append, arith,
}
use renet.Packet.{Bytes}
use renet.Packet.Wire.{Octets, ReadsBack, HasBounds}

abbrev get_one : Bytes → Option (ℕ × Bytes)
get_one [] = none
get_one (n ∷ rest) = some (n, rest)

abbrev get_bounded : Bytes → Option (ℕ × Bytes)
get_bounded [] = none
get_bounded (n ∷ rest) = if ltb n (2 ^ 62) then some (n, rest) else none

abbrev get_two : Bytes → Option (ℕ × Bytes)
get_two [] = none
get_two (a ∷ []) = none
get_two (a ∷ b ∷ rest) = some (a * 256 + b, rest)

abbrev get_many : ℕ → Bytes → Option (Bytes × Bytes)
get_many n b = if leb n (length b) then some (take n b, drop n b) else none

abbrev pub octets : Octets
octets = record {
  u8 = λ n. n ∷ [];
  u16 = λ n. n / 256 ∷ n % 256 ∷ [];
  varint = λ n. n ∷ [];
  get_u8 = get_one;
  get_u16 = get_two;
  get_varint = get_bounded;
  get_bytes = get_many;
}

get_many_back : (bs rest : Bytes) → get_many (length bs) (bs ++ rest) ≡ some (bs, rest)
get_many_back bs rest =
    let fits : leb (length bs) (length (bs ++ rest)) ≡ true =
      ground (arith, length-append bs rest) in
    let both : Path (Bytes × Bytes) (take (length bs) (bs ++ rest), drop (length bs) (bs ++ rest))
        (bs, rest) =
      cc (take-append bs rest (length bs) refl, drop-append bs rest (length bs) refl) in
    rw (fits, get_many) (ap some both)

bounded_back : (n : ℕ) (rest : Bytes) → n < 2 ^ 62 → get_bounded (n ∷ rest) ≡ some (n, rest)
bounded_back n rest h = ground (arith, h)

pub octets-HasBounds : HasBounds octets
octets-HasBounds [] rest n e = absurd (cc e)
octets-HasBounds (m ∷ b) rest n e = elim (Bool-cases (ltb m (2 ^ 62))) [
  | inl small ↦
      let q : some (m, b) ≡ some (n, rest) = rw small at e in
      let s : m ≡ n = cc q in subst (λ z. z < 2 ^ 62) s (ltb→lt m (2 ^ 62) small)
  | inr large ↦ absurd (cc (rw large at e))
]

pub octets-ReadsBack : ReadsBack octets
octets-ReadsBack = record {
  u8 = λ n rest h. refl;
  u16 = λ n rest h. ap (λ m. some (m, rest)) (omega arith);
  varint = bounded_back;
  bytes = get_many_back;
}
