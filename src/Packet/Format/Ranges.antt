-- ===== src/Packet/Format/Ranges.antt =====
-- The ranges of an ack packet, as differences from the last of them down.
use renet.Base.{
  ℕ, suc, ◌+◌, ◌-◌, ◌^◌, ◌≤◌, ◌<◌, ◌≡◌, refl, sym, ap, ◌∙◌, subst, false, List, [], ◌∷◌, ◌++◌,
  append-nil, ltb, length, All, arith,
}
use renet.Base.Word.{add_u64, add_u64-eq, sub_u64, sub_u64-eq}
use renet.Packet.{Range}
use renet.Packet.Wire.{Octets, ReadsBack, put_varint, get}
use renet.Packet.Wire.Encoded.{Encoded, Puts-nothing, Encoded-then, varint-Encoded}
use renet.Packet.Format.{rev_onto, put_ranges, put_acks, get_ranges, get_acks}
use renet.Connection.Acks.Ranges.{Separated, IsWellFormed}

-- Ranges below `n`, the highest first: none is empty, and between two there is a gap.
abbrev Descending : ℕ → List Range → Type 0
Descending n [] = Unit {0}
Descending n (r ∷ rs) = (r.start < r.end) × (r.end < n) × Descending r.start rs

ranges-Encoded :
    (o : Octets) (rb : ReadsBack o) (n : ℕ) (it acc : List Range)
    → n < 2 ^ 62
    → Descending n it
    → Encoded (put_ranges o n it) (get_ranges o (length it) n acc) (rev_onto it acc)
unfolding put_ranges get_ranges
ranges-Encoded o rb n [] acc b d = ([], Puts-nothing, λ rest. refl)
ranges-Encoded o rb n (r ∷ it) acc b d =
    Encoded-then (put_varint o gap) _ (get o.get_varint) _ gap _
      (varint-Encoded o rb gap (omega (arith, gap-eq, b)))
      (rw no_underlap (
        Encoded-then (put_varint o size) _ (get o.get_varint) _ size _
          (varint-Encoded o rb size (omega (arith, size-eq, b, d.1)))
          (rw no_underflow (
            subst
              (λ z.
                Encoded (put_ranges o r.start it)
                  (get_ranges o (length it) z.0 (record { start = z.0; end = z.1 } ∷ acc))
                  (rev_onto it (r ∷ acc)))
              (sym both)
              (ranges-Encoded o rb r.start it (r ∷ acc) (omega (arith, b, d.0, d.1)) d.2)))))
  where
    gap : ℕ
    gap = sub_u64 (sub_u64 n r.end) 1

    size : ℕ
    size = sub_u64 (sub_u64 r.end 1) r.start

    gap-eq : gap ≡ n - r.end - 1
    gap-eq =
        let g = sub_u64-eq n r.end (omega (arith, d.1)) (omega (arith, b)) in
        sub_u64-eq (sub_u64 n r.end) 1 (omega (arith, g, d.1)) (omega (arith, g, b))
        ∙ ap (λ z. z - 1) g

    size-eq : size ≡ r.end - 1 - r.start
    size-eq =
        let g = sub_u64-eq r.end 1 (omega (arith, d.0)) (omega (arith, b, d.1)) in
        sub_u64-eq (sub_u64 r.end 1) r.start (omega (arith, g, d.0)) (omega (arith, g, b, d.1))
        ∙ ap (λ z. z - r.start) g

    no_underlap : ltb n (add_u64 2 gap) ≡ false
    no_underlap = ground (arith, add_u64-eq 2 gap (omega (arith, gap-eq, b)), gap-eq, d.0, d.1)

    last : sub_u64 (sub_u64 n gap) 2 ≡ r.end - 1
    last =
        let g = sub_u64-eq n gap (omega (arith, gap-eq)) (omega (arith, b)) in
        omega (
          arith,
          sub_u64-eq (sub_u64 n gap) 2 (omega (arith, g, gap-eq, d.0, d.1)) (omega (arith, g, b)),
          g,
          gap-eq,
          d.0,
          d.1,
        )

    no_underflow : ltb (sub_u64 (sub_u64 n gap) 2) size ≡ false
    no_underflow = ground (arith, last, size-eq, d.0)

    first : sub_u64 (sub_u64 (sub_u64 n gap) 2) size ≡ r.start
    first = omega (
      arith,
      sub_u64-eq (sub_u64 (sub_u64 n gap) 2) size (omega (arith, last, size-eq, d.0))
          (omega (arith, last, b, d.1)),
      last,
      size-eq,
      d.0,
    )

    end_eq : add_u64 (sub_u64 (sub_u64 n gap) 2) 1 ≡ r.end
    end_eq =
        omega
          (arith, add_u64-eq (sub_u64 (sub_u64 n gap) 2) 1 (omega (arith, last, b, d.1)), last, d.0)

    both :
        Path
          (ℕ × ℕ)
          (sub_u64 (sub_u64 (sub_u64 n gap) 2) size, add_u64 (sub_u64 (sub_u64 n gap) 2) 1)
          (r.start, r.end)
    both = cc (first, end_eq)

Descending-mono : (m n : ℕ) (rs : List Range) → m ≤ n → Descending m rs → Descending n rs
Descending-mono m n [] h d = tt
Descending-mono m n (r ∷ rs) h d = (d.0, omega (arith, d.1, h), d.2)

rev_onto-Descending :
    (n : ℕ) (rs acc : List Range)
    → n ≤ 2 ^ 62
    → Separated n rs
    → All (λ r. r.end < 2 ^ 62) rs
    → Descending n acc
    → Descending (2 ^ 62) (rev_onto rs acc)
rev_onto-Descending n [] acc h w a d = Descending-mono n (2 ^ 62) acc h d
rev_onto-Descending n (r ∷ rs) acc h w a d =
    rev_onto-Descending (suc r.end) rs (r ∷ acc) (omega (arith, a.0)) w.3 a.1
      (w.1, omega arith, Descending-mono n r.start acc w.0 d)

rev_onto_twice : (xs acc ys : List Range) → rev_onto (rev_onto xs acc) ys ≡ rev_onto acc (xs ++ ys)
rev_onto_twice [] acc ys = refl
rev_onto_twice (x ∷ xs) acc ys = rev_onto_twice xs (x ∷ acc) ys

length-rev_onto : (xs acc : List Range) → length (rev_onto xs acc) ≡ length xs + length acc
length-rev_onto [] acc = omega arith
length-rev_onto (x ∷ xs) acc = omega (arith, length-rev_onto xs (x ∷ acc))

-- The ranges of an ack packet that can be written: there are some, and they are well formed.
pub record IsEncodableAcks (rs : List Range) : Type 0 where
  pub not_empty : 0 < length rs
  pub count : length rs < 2 ^ 62
  pub well_formed : IsWellFormed rs
  pub ends : All (λ r. r.end < 2 ^ 62) rs

pub acks-Encoded :
    (o : Octets) (rb : ReadsBack o) (rs : List Range)
    → IsEncodableAcks rs
    → Encoded (put_acks o (rev_onto rs [])) (get_acks o) rs
unfolding put_acks get_acks
acks-Encoded o rb rs e =
    go (rev_onto rs []) (length-rev_onto rs []) (rev_onto_twice rs [] [] ∙ append-nil rs)
      (rev_onto-Descending 0 rs [] (omega arith) e.well_formed e.ends tt)
  where
    go :
        (down : List Range)
        → length down ≡ length rs + 0
        → rev_onto down [] ≡ rs
        → Descending (2 ^ 62) down
        → Encoded (put_acks o down) (get_acks o) rs
    go [] l q d = absurd (omega (arith, l, e.not_empty))
    go (last ∷ it) l q d =
        let a = sub_u64-eq last.end 1 (omega (arith, d.0)) (omega (arith, d.1)) in
        let b =
          sub_u64-eq (sub_u64 last.end 1) last.start (omega (arith, a, d.0))
            (omega (arith, a, d.1)) in
        let size = sub_u64 (sub_u64 last.end 1) last.start in
        let valid : ltb (sub_u64 last.end 1) size ≡ false = ground (arith, a, b, d.0) in
        let first : sub_u64 (sub_u64 last.end 1) size ≡ last.start = omega (
          arith,
          sub_u64-eq (sub_u64 last.end 1) size (omega (arith, a, b, d.0)) (omega (arith, a, d.1)),
          a,
          b,
          d.0,
        ) in
        let end_eq : add_u64 (sub_u64 last.end 1) 1 ≡ last.end =
          omega (arith, add_u64-eq (sub_u64 last.end 1) 1 (omega (arith, a, d.1)), a, d.0) in
        let both : Path (ℕ × ℕ) (sub_u64 (sub_u64 last.end 1) size, add_u64 (sub_u64 last.end 1) 1)
            (last.start, last.end) =
          cc (first, end_eq) in
        Encoded-then (put_varint o (sub_u64 last.end 1)) _ (get o.get_varint) _ (sub_u64 last.end 1)
          _ (varint-Encoded o rb (sub_u64 last.end 1) (omega (arith, a, d.1)))
          (Encoded-then (put_varint o size) _ (get o.get_varint) _ size _
            (varint-Encoded o rb size (omega (arith, b, a, d.1)))
            (Encoded-then (put_varint o (length it)) _ (get o.get_varint) _ (length it) _
              (varint-Encoded o rb (length it) (omega (arith, l, e.count)))
              (rw valid (
                subst
                  (λ z.
                    Encoded (put_ranges o last.start it)
                      (get_ranges o (length it) z.0 (record { start = z.0; end = z.1 } ∷ [])) rs)
                  (sym both)
                  (subst
                    (Encoded (put_ranges o last.start it)
                      (get_ranges o (length it) last.start (last ∷ [])))
                    q
                    (ranges-Encoded o rb last.start it (last ∷ []) (omega (arith, d.0, d.1))
                      d.2))))))
