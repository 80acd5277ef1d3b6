-- ===== src/Base/Outcome.antt =====
-- What a call does: it returns a value, or it panics (an index out of range, an `unwrap` of `None`,
-- `unreachable!`, a negative `Duration`). `Result` is the language's own.
use renet.Base.{◌≡◌, refl, Option, none, some}

pub data Outcome {ℓ} (A : Type ℓ) : Type ℓ where
  returns : A → Outcome A
  panics : Outcome A

pub data Result {ℓ κ} (A : Type ℓ) (E : Type κ) : Type (ℓ ⊔ κ) where
  ok : A → Result A E
  err : E → Result A E

infixl 5 ◌>>=◌
abbrev pub ◌>>=◌ {ℓ κ} : {A : Type ℓ} {B : Type κ} → Outcome A → (A → Outcome B) → Outcome B
returns a >>= f = f a
panics >>= f = panics

-- `unwrap` and `expect`, and indexing into a vector.
abbrev pub unwrap {ℓ} : {A : Type ℓ} → Option A → Outcome A
unwrap none = panics
unwrap (some a) = returns a

pub >>=-returns {ℓ κ} :
    {A : Type ℓ} {B : Type κ} (m : Outcome A) (f : A → Outcome B) {b : B}
    → (m >>= f) ≡ returns b
    → (a : A) × (m ≡ returns a) × (f a ≡ returns b)
>>=-returns (returns a) f h = (a, refl, h)
>>=-returns panics f h = cc

-- The call returns, with a value of which `P` holds.
abbrev pub Returns {ℓ κ} : {A : Type ℓ} → (A → Type κ) → Outcome A → Type (ℓ ⊔ κ)
Returns {A} P o = (a : A) × (o ≡ returns a) × P a

pub Returns-bind {ℓ κ μ ν} :
    {A : Type ℓ} {B : Type κ} (P : A → Type μ) (Q : B → Type ν) (m : Outcome A) (f : A → Outcome B)
    → Returns P m
    → ((a : A) → P a → Returns Q (f a))
    → Returns Q (m >>= f)
Returns-bind P Q m f (a, e, p) k = let (b, e', q) = k a p in (b, rw e e', q)

pub Returns-imp {ℓ κ μ} :
    {A : Type ℓ} (P : A → Type κ) (Q : A → Type μ) (m : Outcome A)
    → Returns P m
    → ((a : A) → P a → Q a)
    → Returns Q m
Returns-imp P Q m (a, e, p) k = (a, e, k a p)

-- What the call returns, if it returns, has the property.
abbrev pub WhenReturns {ℓ κ} : {A : Type ℓ} → (A → Type κ) → Outcome A → Type κ
WhenReturns P (returns a) = P a
WhenReturns P panics = Unit {κ}

pub WhenReturns-bind {ℓ κ μ ν} :
    {A : Type ℓ} {B : Type κ} (P : A → Type μ) (Q : B → Type ν) (m : Outcome A) (f : A → Outcome B)
    → WhenReturns P m
    → ((a : A) → P a → WhenReturns Q (f a))
    → WhenReturns Q (m >>= f)
WhenReturns-bind P Q (returns a) f p k = k a p
WhenReturns-bind P Q panics f p k = tt

-- Whatever the first call returns.
pub WhenReturns-all {ℓ κ ν} :
    {A : Type ℓ} {B : Type κ} (Q : B → Type ν) (m : Outcome A) (f : A → Outcome B)
    → ((a : A) → WhenReturns Q (f a))
    → WhenReturns Q (m >>= f)
WhenReturns-all Q (returns a) f k = k a
WhenReturns-all Q panics f k = tt

pub WhenReturns-imp {ℓ κ μ} :
    {A : Type ℓ} (P : A → Type κ) (Q : A → Type μ) (m : Outcome A)
    → WhenReturns P m
    → ((a : A) → P a → Q a)
    → WhenReturns Q m
WhenReturns-imp P Q (returns a) p k = k a p
WhenReturns-imp P Q panics p k = tt
