-- ===== src/Base/Map.antt =====
-- `BTreeMap<u64, V>` as the list of its entries in the order of its iterator, and a `HashMap` with
-- number keys as one such order.
pub mod Order
pub mod Sum
pub mod Entries
use renet.Base.{
  ℕ, ◌≡◌, refl, Bool, true, false, Option, none, some, List, [], ◌∷◌, arith, ltb, ◌==◌,
  if◌then◌else◌,
}

abbrev pub Map {ℓ} : Type ℓ → Type ℓ
Map V = List (ℕ × V)

module _ {ℓ} {V : Type ℓ} where
  unfoldable pub get : Map V → ℕ → Option V
  get [] k = none
  get ((j, v) ∷ m) k = if j == k then some v else get m k

  unfoldable pub contains_key : Map V → ℕ → Bool
  contains_key [] k = false
  contains_key ((j, v) ∷ m) k = if j == k then true else contains_key m k

  unfoldable pub insert : Map V → ℕ → V → Map V
  insert [] k v = (k, v) ∷ []
  insert ((j, w) ∷ m) k v =
      if j == k then (k, v) ∷ m else if ltb k j then (k, v) ∷ (j, w) ∷ m else (j, w) ∷ insert m k v

  unfoldable pub remove : Map V → ℕ → Map V
  remove [] k = []
  remove ((j, w) ∷ m) k = let rest = remove m k in if j == k then rest else (j, w) ∷ rest

module _ {ℓ} {V : Type ℓ} where
  pub get-insert :
      (m : Map V) (k j : ℕ) (v : V) → get (insert m k v) j ≡ (if k == j then some v else get m j)
  unfolding get insert
  get-insert [] k j v = refl
  get-insert ((i, w) ∷ m) k j v = ground (arith, get-insert m k j v)

  pub get-remove : (m : Map V) (k j : ℕ) → get (remove m k) j ≡ (if k == j then none else get m j)
  unfolding get remove
  get-remove [] k j = ground arith
  get-remove ((i, w) ∷ m) k j = ground (arith, get-remove m k j)

  -- `contains_key` is whether `get` finds a value.
  pub contains_key-get :
      (m : Map V) (k : ℕ) → contains_key m k ≡ elim (get m k) [ none ↦ false | some v ↦ true ]
  unfolding get contains_key
  contains_key-get [] k = refl
  contains_key-get ((i, w) ∷ m) k = ground (arith, contains_key-get m k)

  pub remove-insert_self : (m : Map V) (k : ℕ) (v : V) → remove (insert m k v) k ≡ remove m k
  unfolding insert remove
  remove-insert_self [] k v = ground arith
  remove-insert_self ((j, w) ∷ m) k v = ground (arith, remove-insert_self m k v)
