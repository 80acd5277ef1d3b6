-- ===== src/Base/Map/Sum.antt =====
-- A sum over the values of a map, such as the bytes that its messages take.
use renet.Base.{ℕ, ◌+◌, ◌≡◌, none, some, [], ◌∷◌, arith}
use renet.Base.Map.{Map, get, insert, remove}
use renet.Base.Map.Order.{Ascending, remove-Above, get-Above}

module _ {ℓ} {V : Type ℓ} where
  abbrev pub total : (V → ℕ) → Map V → ℕ
  total f [] = 0
  total f ((k, v) ∷ m) = f v + total f m

module _ {ℓ} {V : Type ℓ} where
  pub total-insert :
      (f : V → ℕ) (m : Map V) (k : ℕ) (v : V)
      → get m k ≡ none
      → total f (insert m k v) ≡ total f m + f v
  unfolding get insert
  total-insert f [] k v h = omega arith
  total-insert f ((j, w) ∷ m) k v h = ground (arith, total-insert f m k v)

  pub total-insert_over :
      (f : V → ℕ) (m : Map V) (k : ℕ) (v w : V)
      → Ascending m
      → get m k ≡ some w
      → total f (insert m k v) + f w ≡ total f m + f v
  unfolding get insert
  total-insert_over f [] k v w a h = ground arith
  total-insert_over f ((j, u) ∷ m) k v w a h =
      ground (arith, total-insert_over f m k v w a.1, get-Above j m k a.0)

  pub total-remove :
      (f : V → ℕ) (m : Map V) (k : ℕ) (v : V)
      → Ascending m
      → get m k ≡ some v
      → total f (remove m k) + f v ≡ total f m
  unfolding get remove
  total-remove f [] k v a h = ground arith
  total-remove f ((j, w) ∷ m) k v a h =
      ground (arith, total-remove f m k v a.1, remove-Above j m k a.0)

module _ {ℓ} {V : Type ℓ} where
  -- Only the size of what is inserted counts.
  pub total-insert_same :
      (f : V → ℕ) (m : Map V) (k : ℕ) (v w : V)
      → f v ≡ f w
      → total f (insert m k v) ≡ total f (insert m k w)
  unfolding insert
  total-insert_same f [] k v w e = omega arith
  total-insert_same f ((j, u) ∷ m) k v w e = ground (arith, total-insert_same f m k v w e)
