-- ===== src/Base/Map/Order.antt =====
-- The keys of a map ascend, so that its first entry has the least key.
use renet.Base.{ℕ, ◌≤◌, ◌<◌, ◌≡◌, refl, none, [], ◌∷◌, arith}
use renet.Base.Map.{Map, get, insert, remove}

module _ {ℓ} {V : Type ℓ} where
  abbrev pub Above : ℕ → Map V → Type 0
  Above k [] = Unit {0}
  Above k ((j, v) ∷ m) = (k < j) × Above k m

  abbrev pub Ascending : Map V → Type 0
  Ascending [] = Unit {0}
  Ascending ((k, v) ∷ m) = Above k m × Ascending m

module _ {ℓ} {V : Type ℓ} where
  Above-mono : (i k : ℕ) (m : Map V) → i ≤ k → Above k m → Above i m
  Above-mono i k [] h a = tt
  Above-mono i k ((j, v) ∷ m) h a = (omega arith, Above-mono i k m h a.1)

  Above-insert : (i : ℕ) (m : Map V) (k : ℕ) (v : V) → i < k → Above i m → Above i (insert m k v)
  unfolding insert
  Above-insert i [] k v h a = (h, tt)
  Above-insert i ((j, w) ∷ m) k v h a = ground (arith, Above-insert i m k v h a.1)

  pub insert-Ascending : (m : Map V) (k : ℕ) (v : V) → Ascending m → Ascending (insert m k v)
  unfolding insert
  insert-Ascending [] k v a = (tt, tt)
  insert-Ascending ((j, w) ∷ m) k v a =
      ground (
        arith,
        insert-Ascending m k v a.1,
        Above-insert j m k v,
        Above-mono k j m,
        Above-mono j k m,
      )

  Above-remove : (i : ℕ) (m : Map V) (k : ℕ) → Above i m → Above i (remove m k)
  unfolding remove
  Above-remove i [] k a = tt
  Above-remove i ((j, w) ∷ m) k a = ground (arith, Above-remove i m k a.1)

  pub remove-Ascending : (m : Map V) (k : ℕ) → Ascending m → Ascending (remove m k)
  unfolding remove
  remove-Ascending [] k a = tt
  remove-Ascending ((j, w) ∷ m) k a =
      ground (arith, remove-Ascending m k a.1, Above-remove j m k a.0)

  pub get-Above : (i : ℕ) (m : Map V) (k : ℕ) → Above i m → k ≤ i → get m k ≡ none
  unfolding get
  get-Above i [] k a h = refl
  get-Above i ((j, w) ∷ m) k a h = ground (arith, get-Above i m k a.1 h)

  pub remove-Above : (i : ℕ) (m : Map V) (k : ℕ) → Above i m → k ≤ i → remove m k ≡ m
  unfolding remove
  remove-Above i [] k a h = refl
  remove-Above i ((j, w) ∷ m) k a h = ground (arith, remove-Above i m k a.1 h)
