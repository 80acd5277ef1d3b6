-- ===== src/Base/Map/Entries.antt =====
-- A property of all entries of a map.
use renet.Base.{ℕ, ◌≡◌, some, [], ◌∷◌, arith, ◌==◌, ltb, ==_iff, Bool-cases, inl, inr, subst}
use renet.Base.Map.{Map, get, insert, remove}

module _ {V : Type 0} where
  abbrev pub Entries : (ℕ → V → Type 0) → Map V → Type 0
  Entries P [] = Unit {0}
  Entries P ((k, v) ∷ m) = P k v × Entries P m

module _ {V : Type 0} (P : ℕ → V → Type 0) where
  pub Entries-insert : (m : Map V) (k : ℕ) (v : V) → P k v → Entries P m → Entries P (insert m k v)
  unfolding insert
  Entries-insert [] k v p e = (p, tt)
  Entries-insert ((j, w) ∷ m) k v p e = elim (Bool-cases (j == k)) [
    | inl same ↦ rw same (p, e.1)
    | inr other ↦ elim (Bool-cases (ltb k j)) [
      | inl before ↦ rw (other, before) (p, (e.0, e.1))
      | inr after ↦ rw (other, after) (e.0, Entries-insert m k v p e.1)
    ]
  ]

  pub Entries-remove : (m : Map V) (k : ℕ) → Entries P m → Entries P (remove m k)
  unfolding remove
  Entries-remove [] k e = tt
  Entries-remove ((j, w) ∷ m) k e = elim (Bool-cases (j == k)) [
    | inl same ↦ rw same (Entries-remove m k e.1)
    | inr other ↦ rw other (e.0, Entries-remove m k e.1)
  ]

  pub Entries-get : (m : Map V) (k : ℕ) (v : V) → Entries P m → get m k ≡ some v → P k v
  unfolding get
  Entries-get [] k v e g = cc
  Entries-get ((j, w) ∷ m) k v e g = elim (Bool-cases (j == k)) [
    | inl same ↦
        let q : w ≡ v = ground arith in subst (P k) q (subst (λ x. P x w) ((==_iff j k).0 same) e.0)
    | inr other ↦ Entries-get m k v e.1 (rw other at g)
  ]

  pub Entries-imp :
      (Q : ℕ → V → Type 0) (m : Map V)
      → ((k : ℕ) (v : V) → P k v → Q k v)
      → Entries P m
      → Entries Q m
  Entries-imp Q [] f e = tt
  Entries-imp Q ((k, v) ∷ m) f e = (f k v e.0, Entries-imp Q m f e.1)
