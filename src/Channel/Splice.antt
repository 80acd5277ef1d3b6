-- ===== src/Channel/Splice.antt =====
-- The elements of a list that is cut, extended or written over.
use renet.Base.{
  ℕ, zero, suc, ◌+◌, ◌-◌, ◌≤◌, ◌≡◌, refl, none, List, [], ◌∷◌, ◌++◌, arith, if◌then◌else◌, ltb,
  length, get_elem?, take, drop, length-append, length-take, length-drop,
}
use renet.Packet.{Bytes}

module _ {ℓ} {A : Type ℓ} where
  pub get_elem?-append :
      (xs ys : List A) (k : ℕ)
      → get_elem? (xs ++ ys) k
        ≡ (if ltb k (length xs) then get_elem? xs k else get_elem? ys (k - length xs))
  get_elem?-append [] ys k = ground arith
  get_elem?-append (x ∷ xs) ys zero = ground arith
  get_elem?-append (x ∷ xs) ys (suc k) = ground (arith, get_elem?-append xs ys k)

  pub get_elem?-take :
      (n : ℕ) (xs : List A) (k : ℕ)
      → get_elem? (take n xs) k ≡ (if ltb k n then get_elem? xs k else none)
  get_elem?-take zero xs k = ground arith
  get_elem?-take (suc n) [] k = ground arith
  get_elem?-take (suc n) (x ∷ xs) zero = ground arith
  get_elem?-take (suc n) (x ∷ xs) (suc k) = ground (arith, get_elem?-take n xs k)

  pub get_elem?-drop :
      (n : ℕ) (xs : List A) (k : ℕ) → get_elem? (drop n xs) k ≡ get_elem? xs (n + k)
  get_elem?-drop zero xs k = ground arith
  get_elem?-drop (suc n) [] k = refl
  get_elem?-drop (suc n) (x ∷ xs) k = ground (arith, get_elem?-drop n xs k)

  pub get_elem?_past : (xs : List A) (k : ℕ) → length xs ≤ k → get_elem? xs k ≡ none
  get_elem?_past [] k h = refl
  get_elem?_past (x ∷ xs) zero h = absurd (omega arith)
  get_elem?_past (x ∷ xs) (suc k) h = get_elem?_past xs k (omega arith)

  -- Lists with the same elements are equal.
  pub get_elem?-ext : (xs ys : List A) → ((k : ℕ) → get_elem? xs k ≡ get_elem? ys k) → xs ≡ ys
  get_elem?-ext [] [] h = refl
  get_elem?-ext [] (y ∷ ys) h = cc (h 0)
  get_elem?-ext (x ∷ xs) [] h = cc (h 0)
  get_elem?-ext (x ∷ xs) (y ∷ ys) h =
      let tails = get_elem?-ext xs ys (λ k. h (suc k)) in cc (h 0, tails)

-- What `xs` holds once `bytes` are written over it from `start` on.
pub get_elem?-splice :
    (xs bytes : Bytes) (start end k : ℕ)
    → start + length bytes ≡ end
    → end ≤ length xs
    → get_elem? (take start xs ++ (bytes ++ drop end xs)) k ≡ (
        if ltb k start
        then get_elem? xs k
        else if ltb k end
        then get_elem? bytes (k - start)
        else get_elem? xs k)
get_elem?-splice xs bytes start end k e h = ground (
  arith,
  get_elem?-append (take start xs) (bytes ++ drop end xs) k,
  length-take start xs,
  get_elem?-take start xs k,
  get_elem?-append bytes (drop end xs) (k - start),
  get_elem?-drop end xs (k - start - length bytes),
)

pub length-splice :
    (xs bytes : Bytes) (start end : ℕ)
    → start + length bytes ≡ end
    → end ≤ length xs
    → length (take start xs ++ (bytes ++ drop end xs)) ≡ length xs
length-splice xs bytes start end e h = omega (
  arith,
  length-append (take start xs) (bytes ++ drop end xs),
  length-append bytes (drop end xs),
  length-take start xs,
  length-drop end xs,
)
