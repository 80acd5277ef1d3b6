-- ===== src/Base/Flags.antt =====
-- How many flags of a list are set.
use renet.Base.{
  ℕ, zero, suc, ◌+◌, ◌≤◌, ◌<◌, ◌≡◌, refl, ap, Bool, true, false, some, List, [], ◌∷◌, arith, length,
  get_elem?, set, replicate,
}

abbrev pub trues : List Bool → ℕ
trues [] = 0
trues (true ∷ bs) = suc (trues bs)
trues (false ∷ bs) = trues bs

pub trues-replicate : (n : ℕ) → trues (replicate n false) ≡ 0
trues-replicate zero = refl
trues-replicate (suc n) = trues-replicate n

pub trues-le-length : (bs : List Bool) → trues bs ≤ length bs
trues-le-length [] = omega arith
trues-le-length (true ∷ bs) = omega (arith, trues-le-length bs)
trues-le-length (false ∷ bs) = omega (arith, trues-le-length bs)

pub trues-set :
    (bs : List Bool) (i : ℕ) → get_elem? bs i ≡ some false → trues (set bs i true) ≡ trues bs + 1
trues-set [] i h = ground arith
trues-set (true ∷ bs) zero h = ground arith
trues-set (false ∷ bs) zero h = omega arith
trues-set (true ∷ bs) (suc i) h = omega (arith, trues-set bs i h)
trues-set (false ∷ bs) (suc i) h = trues-set bs i h

-- When as many flags are set as there are, all are.
pub trues_full :
    (bs : List Bool) (i : ℕ) → trues bs ≡ length bs → i < length bs → get_elem? bs i ≡ some true
trues_full [] i e h = absurd (omega arith)
trues_full (true ∷ bs) zero e h = refl
trues_full (false ∷ bs) zero e h = absurd (omega (arith, trues-le-length bs))
trues_full (true ∷ bs) (suc i) e h = trues_full bs i (omega arith) (omega arith)
trues_full (false ∷ bs) (suc i) e h = absurd (omega (arith, trues-le-length bs))

pub trues_full_of_all :
    (bs : List Bool) → ((i : ℕ) → i < length bs → get_elem? bs i ≡ some true) → trues bs ≡ length bs
trues_full_of_all [] h = refl
trues_full_of_all (true ∷ bs) h = ap suc (trues_full_of_all bs (λ i k. h (suc i) (omega arith)))
trues_full_of_all (false ∷ bs) h = cc (h 0 (omega arith))

pub get_elem?_lt {ℓ} :
    {A : Type ℓ} (xs : List A) (i : ℕ) → i < length xs → (x : A) × (get_elem? xs i ≡ some x)
get_elem?_lt [] i h = absurd (omega arith)
get_elem?_lt (x ∷ xs) zero h = (x, refl)
get_elem?_lt (x ∷ xs) (suc i) h = get_elem?_lt xs i (omega arith)
