-- ===== src/Packet/Wire/Encoded.antt =====
-- A call that writes together with one that reads.
use renet.Base.{
  ℕ, ◌-◌, ◌^◌, ◌<◌, ◌≡◌, refl, sym, ap, ◌∙◌, Bool, true, false, [], ◌++◌, append_assoc, append-nil,
  ltb, leb, if◌then◌else◌, length, length-append, arith, ◌⊎◌, inl, inr, Bool-cases,
}
use renet.Base.Outcome.{Outcome, returns, panics, Result, ok, err}
use renet.Error.{SerializationError, buffer_too_short}
use renet.Packet.{Bytes}
use renet.Packet.Wire.{
  Octets, ReadsBack, Buffer, Put, put, put_nothing, next, ◌>>◌, put_varint, Get, get, ◌>>=◌,
  get_bytes_with_varint_length,
}

-- The call writes these bytes, or fails for want of room for them.
abbrev pub Puts : Put → Bytes → Type 0
Puts p bs = (b : Buffer) → p b ≡ put bs b

-- The call reads the value off these bytes, and leaves what follows.
abbrev pub Gets : {A : Type 0} → Get A → Bytes → A → Type 0
Gets g bs a = (rest : Bytes) → g (bs ++ rest) ≡ ok (a, rest)

abbrev pub Encoded : {A : Type 0} → Put → Get A → A → Type 0
Encoded p g a = (bs : Bytes) × Puts p bs × Gets g bs a

next_if :
    (c : Bool) (b : Buffer) (e : SerializationError) (q : Put)
    → next (if c then returns (ok b) else returns (err e)) q ≡ (if c then q b else returns (err e))
next_if true b e q = refl
next_if false b e q = refl

buffer-eq :
    {w w' : Bytes} {l l' : ℕ}
    → w ≡ w'
    → l ≡ l'
    → Path Buffer (record { written = w; left = l }) (record { written = w'; left = l' })
buffer-eq p q = cc (p, q)

put-append : (bs cs : Bytes) (b : Buffer) → next (put bs b) (put cs) ≡ put (bs ++ cs) b
put-append bs cs b =
    next_if (leb (length bs) b.left)
      (record { written = b.written ++ bs; left = b.left - length bs }) buffer_too_short (put cs)
    ∙ both (Bool-cases (leb (length bs) b.left)) (Bool-cases (leb (length cs) (b.left - length bs)))
  where
    both :
        ((leb (length bs) b.left ≡ true) ⊎ (leb (length bs) b.left ≡ false))
        → ((leb (length cs) (b.left - length bs) ≡ true)
            ⊎ (leb (length cs) (b.left - length bs) ≡ false))
        → (if leb (length bs) b.left
            then put cs (record { written = b.written ++ bs; left = b.left - length bs })
            else returns (err buffer_too_short))
          ≡ put (bs ++ cs) b
    both (inl fits) (inl fits') =
        let all : leb (length (bs ++ cs)) b.left ≡ true = ground (arith, length-append bs cs) in
        rw (fits, fits', all)
          (ap (λ (x : Buffer). returns (ok x))
            (buffer-eq (append_assoc b.written bs cs) (omega (arith, length-append bs cs))))
    both (inl fits) (inr full) =
        let over : leb (length (bs ++ cs)) b.left ≡ false = ground (arith, length-append bs cs) in
        rw (fits, full, over) refl
    both (inr full) _ =
        let over : leb (length (bs ++ cs)) b.left ≡ false = ground (arith, length-append bs cs) in
        rw (full, over) refl

pub Puts-then : (p q : Put) (bs cs : Bytes) → Puts p bs → Puts q cs → Puts (p >> q) (bs ++ cs)
Puts-then p q bs cs h k b = ap (λ x. next x q) (h b) ∙ go (put bs b) ∙ put-append bs cs b
  where
    go : (x : Outcome (Result Buffer SerializationError)) → next x q ≡ next x (put cs)
    go panics = refl
    go (returns (err e)) = refl
    go (returns (ok b')) = k b'

pub Puts-nothing : Puts put_nothing []
Puts-nothing b =
    let room : leb 0 b.left ≡ true = ground arith in
    rw room
      (ap (λ (x : Buffer). returns (ok x)) (buffer-eq (sym (append-nil b.written)) (omega arith)))

pub Gets-bind :
    {A B : Type 0} (g : Get A) (f : A → Get B) (bs cs : Bytes) (a : A) (c : B)
    → Gets g bs a
    → Gets (f a) cs c
    → Gets (g >>= f) (bs ++ cs) c
Gets-bind g f bs cs a c h k rest =
    ap (λ z. (g >>= f) z) (append_assoc bs cs rest)
    ∙ ap (λ (x : Result _ _). elim x [ err e ↦ err e | ok x ↦ f x.0 x.1 ]) (h (cs ++ rest))
    ∙ k rest

-- A value that is given at last takes no bytes.
pub Gets-last :
    {A B : Type 0} (g : Get A) (f : A → Get B) (bs : Bytes) (a : A) (c : B)
    → Gets g bs a
    → Gets (f a) [] c
    → Gets (g >>= f) bs c
Gets-last g f bs a c h k rest =
    ap (λ (x : Result _ _). elim x [ err e ↦ err e | ok x ↦ f x.0 x.1 ]) (h rest) ∙ k rest

pub Encoded-then :
    {A B : Type 0} (p q : Put) (g : Get A) (f : A → Get B) (a : A) (c : B)
    → Encoded p g a
    → Encoded q (f a) c
    → Encoded (p >> q) (g >>= f) c
Encoded-then p q g f a c (bs, h, h') (cs, k, k') =
    (bs ++ cs, Puts-then p q bs cs h k, Gets-bind g f bs cs a c h' k')

pub Encoded-last :
    {A B : Type 0} (p : Put) (g : Get A) (f : A → Get B) (a : A) (c : B)
    → Encoded p g a
    → Gets (f a) [] c
    → Encoded p (g >>= f) c
Encoded-last p g f a c (bs, h, h') k = (bs, h, Gets-last g f bs a c h' k)

module _ (o : Octets) (r : ReadsBack o) where
  pub u8-Encoded : (n : ℕ) → n < 2 ^ 8 → Encoded (put (o.u8 n)) (get o.get_u8) n
  u8-Encoded n h = (o.u8 n, λ b. refl, λ rest. rw (r.u8 n rest h, get) refl)

  pub u16-Encoded : (n : ℕ) → n < 2 ^ 16 → Encoded (put (o.u16 n)) (get o.get_u16) n
  u16-Encoded n h = (o.u16 n, λ b. refl, λ rest. rw (r.u16 n rest h, get) refl)

  pub varint-Encoded : (n : ℕ) → n < 2 ^ 62 → Encoded (put_varint o n) (get o.get_varint) n
  varint-Encoded n h =
      let small : ltb n (2 ^ 62) ≡ true = ground (arith, h) in
      (o.varint n, λ b. rw small refl, λ rest. rw (r.varint n rest h, get) refl)

  bytes-Encoded : (bs : Bytes) → Encoded (put bs) (get (o.get_bytes (length bs))) bs
  bytes-Encoded bs = (bs, λ b. refl, λ rest. rw (r.bytes bs rest, get) refl)

  prefixed-Encoded :
      (bs : Bytes)
      → length bs < 2 ^ 62
      → Encoded (put_varint o (length bs) >> put bs) (get_bytes_with_varint_length o) bs
  prefixed-Encoded bs h =
      Encoded-then (put_varint o (length bs)) (put bs) (get o.get_varint)
        (λ len. get (o.get_bytes len)) (length bs) bs (varint-Encoded (length bs) h)
        (bytes-Encoded bs)

  -- A length, the bytes, and what follows.
  pub prefixed_then :
      {B : Type 0} (bs : Bytes) (q : Put) (f : Bytes → Get B) (c : B)
      → length bs < 2 ^ 62
      → Encoded q (f bs) c
      → Encoded (put_varint o (length bs) >> put bs >> q) (get_bytes_with_varint_length o >>= f) c
  prefixed_then bs q f c h e =
      let (cs, k, k') =
        Encoded-then (put_varint o (length bs) >> put bs) q (get_bytes_with_varint_length o) f bs c
          (prefixed-Encoded bs h) e in
      (cs, λ b. sym (next_assoc (put_varint o (length bs) b) (put bs) q) ∙ k b, k')
    where
      next_assoc :
          (x : Outcome (Result Buffer SerializationError)) (p q : Put)
          → next (next x p) q ≡ next x (p >> q)
      next_assoc panics p q = refl
      next_assoc (returns (err e)) p q = refl
      next_assoc (returns (ok b)) p q = refl

  pub prefixed_last :
      {B : Type 0} (bs : Bytes) (f : Bytes → Get B) (c : B)
      → length bs < 2 ^ 62
      → Gets (f bs) [] c
      → Encoded (put_varint o (length bs) >> put bs) (get_bytes_with_varint_length o >>= f) c
  prefixed_last bs f c h k =
      Encoded-last (put_varint o (length bs) >> put bs) (get_bytes_with_varint_length o) f bs c
        (prefixed-Encoded bs h) k
