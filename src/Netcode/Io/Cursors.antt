-- ===== src/Netcode/Io/Cursors.antt =====
-- Words and arrays read after they were written, with the cursors of renetcode/src/serialize.rs.
use renet.Base.{
  ℕ, zero, suc, ◌-◌, ◌/◌, ◌^◌, ◌<◌, ◌≤◌, ◌≡◌, refl, sym, ap, ◌∙◌, true, false, [], ◌++◌,
  append_assoc, append-nil, leb, length, length-append, take, drop, take-append, drop-append, arith,
  inl, inr, Bool-cases,
}
use renet.Base.Outcome.{Result, ok, err}
use renet.Packet.{Bytes}
use renet.Netcode.Error.{IoError, unexpected_eof, write_zero}
use renet.Netcode.Error
use renet.Netcode.Io.{
  to_le_bytes, from_le_bytes, Writer, write_all, Read, give, ◌>>=◌, read_bytes, read_word,
}

pub length-to_le_bytes : (k n : ℕ) → length (to_le_bytes k n) ≡ k
length-to_le_bytes zero n = refl
length-to_le_bytes (suc k) n = ap suc (length-to_le_bytes k (n / 256))

pub from_le_bytes-to_le_bytes : (k n : ℕ) → n < 256 ^ k → from_le_bytes (to_le_bytes k n) ≡ n
from_le_bytes-to_le_bytes zero n h = omega arith
from_le_bytes-to_le_bytes (suc k) n h =
    let q : n / 256 < 256 ^ k = grind arith in
    omega (arith, from_le_bytes-to_le_bytes k (n / 256) q)

-- The read takes these bytes and gives the value.
abbrev pub Reads : {A : Type 0} → Read A → Bytes → A → Type 0
Reads r bs a = (rest : Bytes) → r (bs ++ rest) ≡ ok (a, rest)

pub Reads-bind :
    {A B : Type 0} (r : Read A) (f : A → Read B) (bs cs : Bytes) (a : A) (b : B)
    → Reads r bs a
    → Reads (f a) cs b
    → Reads (r >>= f) (bs ++ cs) b
Reads-bind r f bs cs a b h k rest =
    ap (λ z. (r >>= f) z) (append_assoc bs cs rest)
    ∙ ap (λ (x : Result _ _). elim x [ err e ↦ err e | ok x ↦ f x.0 x.1 ]) (h (cs ++ rest))
    ∙ k rest

-- What follows takes no more bytes.
pub Reads-last :
    {A B : Type 0} (r : Read A) (f : A → Read B) (bs : Bytes) (a : A) (b : B)
    → Reads r bs a
    → Reads (f a) [] b
    → Reads (r >>= f) bs b
Reads-last r f bs a b h k rest =
    ap (λ (x : Result _ _). elim x [ err e ↦ err e | ok x ↦ f x.0 x.1 ]) (h rest) ∙ k rest

pub read_bytes-Reads : (n : ℕ) (bs : Bytes) → length bs ≡ n → Reads (read_bytes n) bs bs
read_bytes-Reads n bs e rest =
    let fits : leb n (length (bs ++ rest)) ≡ true = ground (arith, length-append bs rest) in
    let both : Path (Bytes × Bytes) (take n (bs ++ rest), drop n (bs ++ rest)) (bs, rest) =
      cc (take-append bs rest n (sym e), drop-append bs rest n (sym e)) in
    rw (fits, read_bytes) (ap ok both)

pub read_word-Reads : (k n : ℕ) → n < 256 ^ k → Reads (read_word k) (to_le_bytes k n) n
read_word-Reads k n h =
    Reads-last (read_bytes k) (λ buffer. give (from_le_bytes buffer)) (to_le_bytes k n)
      (to_le_bytes k n) n (read_bytes-Reads k (to_le_bytes k n) (length-to_le_bytes k n))
      (λ rest. ap (λ m. ok (m, rest)) (from_le_bytes-to_le_bytes k n h))

pub writer-eq :
    {w w' : Bytes} {r r' : ℕ}
    → w ≡ w'
    → r ≡ r'
    → Path Writer (record { written = w; room = r }) (record { written = w'; room = r' })
writer-eq p q = cc (p, q)

pub write_all-fits :
    (bs : Bytes) (w : Writer)
    → length bs ≤ w.room
    → write_all bs w ≡ ok (record { written = w.written ++ bs; room = w.room - length bs })
write_all-fits bs w h =
    let fits : leb (length bs) w.room ≡ true = ground (arith, h) in rw (fits, write_all) refl

pub write_all-full :
    (bs : Bytes) (w : Writer) → w.room < length bs → write_all bs w ≡ err write_zero
write_all-full bs w h =
    let full : leb (length bs) w.room ≡ false = ground (arith, h) in rw (full, write_all) refl

-- Two writes are one.
pub write_all-append :
    (bs cs : Bytes) (w : Writer)
    → (Error.◌>>=◌ (write_all bs w) (write_all cs)) ≡ write_all (bs ++ cs) w
write_all-append bs cs w = elim (Bool-cases (leb (length bs) w.room)) [
  | inr full ↦
      let over : w.room < length (bs ++ cs) = ground (arith, length-append bs cs) in
      ap (λ x. Error.◌>>=◌ x (write_all cs)) (write_all-full bs w (ground arith))
      ∙ sym (write_all-full (bs ++ cs) w over)
  | inl fits ↦
      ap (λ x. Error.◌>>=◌ x (write_all cs)) (write_all-fits bs w (ground arith))
      ∙ elim (Bool-cases (leb (length cs) (w.room - length bs))) [
        | inl fits' ↦
            write_all-fits cs _ (ground arith)
            ∙ ap ok (writer-eq (append_assoc w.written bs cs) (omega (arith, length-append bs cs)))
            ∙ sym (write_all-fits (bs ++ cs) w (ground (arith, length-append bs cs)))
        | inr full ↦
            write_all-full cs _ (ground arith)
            ∙ sym (write_all-full (bs ++ cs) w (ground (arith, length-append bs cs)))
      ]
]

pub write_all-nothing : (w : Writer) → write_all [] w ≡ ok w
write_all-nothing w =
    write_all-fits [] w (omega arith) ∙ ap ok (writer-eq (append-nil w.written) (omega arith))

-- One more write before the others.
pub write_before :
    (bs cs : Bytes) (f : Writer → Result Writer IoError) (w : Writer)
    → ((w : Writer) → f w ≡ write_all cs w)
    → Error.◌>>=◌ (write_all bs w) f ≡ write_all (bs ++ cs) w
write_before bs cs f w h = go (write_all bs w) ∙ write_all-append bs cs w
  where
    go : (x : Result Writer IoError) → Error.◌>>=◌ x f ≡ Error.◌>>=◌ x (write_all cs)
    go (ok w') = h w'
    go (err e) = refl

-- The call writes these bytes, or fails for want of room for them.
abbrev pub Writes : (Writer → Result Writer IoError) → Bytes → Type 0
Writes p bs = (w : Writer) → p w ≡ write_all bs w

pub Writes-bind :
    (p f : Writer → Result Writer IoError) (bs cs : Bytes)
    → Writes p bs
    → Writes f cs
    → Writes (λ w. Error.◌>>=◌ (p w) f) (bs ++ cs)
Writes-bind p f bs cs h k w = ap (λ x. Error.◌>>=◌ x f) (h w) ∙ write_before bs cs f w k

-- What a write into a fresh buffer leaves there.
pub write_all-written :
    (bs : Bytes) (w w' : Writer) → write_all bs w ≡ ok w' → w'.written ≡ w.written ++ bs
write_all-written bs w w' e = elim (Bool-cases (leb (length bs) w.room)) [
  | inl fits ↦
      let q : Path (Result Writer IoError)
          (ok (record { written = w.written ++ bs; room = w.room - length bs })) (ok w') =
        sym (write_all-fits bs w (ground arith)) ∙ e in
      cc q
  | inr full ↦ absurd (cc (sym (write_all-full bs w (ground arith)) ∙ e))
]
