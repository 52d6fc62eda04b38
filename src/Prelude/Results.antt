-- ===== src/Prelude/Results.antt =====
-- A call that returns a value or raises an exception of the component's own type.
use mathlib.Core.Path.{◌≡◌, refl, subst}
use mathlib.Core.Bool.{Bool, true, false}
use mathlib.Core.Logic.{◌⊎◌, inl, inr}

pub data Result {ℓ κ} (E : Type ℓ) (A : Type κ) : Type (ℓ ⊔ κ) where
  ok : A → Result E A
  err : E → Result E A

infixl 5 ◌>>=◌ ◌>>◌
abbrev pub ◌>>=◌ {ℓ κ μ} :
    {E : Type ℓ} {A : Type κ} {B : Type μ} → Result E A → (A → Result E B) → Result E B
ok a >>= f = f a
err e >>= f = err e

abbrev pub ◌>>◌ {ℓ κ} : {E : Type ℓ} {B : Type κ} → Result E (Unit {0}) → Result E B → Result E B
m >> k = m >>= λ _. k

-- `if b: raise e`
abbrev pub raise_if {ℓ} : {E : Type ℓ} → Bool → E → Result E (Unit {0})
raise_if true e = err e
raise_if false e = ok tt

-- A chain that returns has returned at its first step.
pub bind_returns {ℓ κ μ} :
    {E : Type ℓ} {A : Type κ} {B : Type μ} {last : B} (first : Result E A) (next : A → Result E B)
    → (first >>= next) ≡ ok last
    → (middle : A) × (first ≡ ok middle) × (next middle ≡ ok last)
bind_returns (ok middle) next returned = (middle, refl, returned)
bind_returns (err e) next returned = cc

pub Result-cases {ℓ κ} :
    {E : Type ℓ} {A : Type κ} (r : Result E A) → ((e : E) × (r ≡ err e)) ⊎ ((a : A) × (r ≡ ok a))
Result-cases (ok a) = inr (a, refl)
Result-cases (err e) = inl (e, refl)

-- What holds of the value, if one is returned.
abbrev pub Ensures {ℓ κ μ} : {E : Type ℓ} {A : Type κ} → (A → Type μ) → Result E A → Type μ
Ensures P (ok a) = P a
Ensures P (err e) = Unit

-- A chain, taken apart from its first step on.
pub bind-Ensures {ℓ κ μ ν} :
    {E : Type ℓ} {A : Type κ} {B : Type μ} (P : B → Type ν) (first : Result E A)
    (next : A → Result E B)
    → ((a : A) → first ≡ ok a → Ensures P (next a))
    → Ensures P (first >>= next)
bind-Ensures P (ok a) next of_next = of_next a refl
bind-Ensures P (err e) next of_next = tt

pub Ensures-returned {ℓ κ μ} :
    {E : Type ℓ} {A : Type κ} (P : A → Type μ) (r : Result E A) (a : A)
    → Ensures P r
    → r ≡ ok a
    → P a
Ensures-returned P (ok b) a of_b returned = let same : b ≡ a = cc in subst P same of_b
Ensures-returned P (err e) a of_b returned = cc

pub raise_if-passed {ℓ} :
    {E : Type ℓ} (test : Bool) (e : E) (u : Unit {0}) → raise_if test e ≡ ok u → test ≡ false
raise_if-passed true e u returned = cc
raise_if-passed false e u returned = refl
