-- ===== src/Base/Errors.antt =====
-- Results of fallible Go functions: a value, or the error that `return nil, err` gives.
use mathlib.Core.Path.{◌≡◌, refl, subst₂}
use mathlib.Core.Logic.{◌⊎◌, inl, inr}
use mathlib.Core.Option.{some}

pub data Outcome {ℓ κ} (E : Type κ) (A : Type ℓ) : Type (ℓ ⊔ κ) where
  ok : A → Outcome E A
  err : E → Outcome E A

infixl 5 ◌>>=◌
abbrev pub ◌>>=◌ {ℓ κ μ} :
    {E : Type μ} {A : Type ℓ} {B : Type κ} → Outcome E A → (A → Outcome E B) → Outcome E B
ok a >>= f = f a
err e >>= f = err e

module _ {ℓ κ μ} {E : Type μ} {A : Type ℓ} {B : Type κ} where
  pub bind-eq-ok :
      (m : Outcome E A) (f : A → Outcome E B) {b : B}
      → (m >>= f) ≡ ok b
      → (a : A) × (m ≡ ok a) × (f a ≡ ok b)
  bind-eq-ok (ok a) f h = (a, refl, h)
  bind-eq-ok (err e) f h = cc

  pub bind-eq-err :
      (m : Outcome E A) (f : A → Outcome E B) {e : E}
      → (m >>= f) ≡ err e
      → (m ≡ err e) ⊎ ((a : A) × (m ≡ ok a) × (f a ≡ err e))
  bind-eq-err (ok a) f h = inr (a, refl, h)
  bind-eq-err (err e') f h = inl (cc)

-- What holds of one successful pair holds of an equal one.
pub ok_cast {κ} :
    {E : Type κ} {A B : Type 0} (P : A → B → Type 0) {a a' : A} {b b' : B}
    → Path (Outcome E (A × B)) (ok (a, b)) (ok (a', b'))
    → P a b
    → P a' b'
ok_cast P {a} {a'} {b} {b'} h u = let p : a ≡ a' = cc in let q : b ≡ b' = cc in subst₂ P p q u

pub some_injective {ℓ} : {A : Type ℓ} → (a b : A) → some a ≡ some b → a ≡ b
some_injective a b h = cc

pub ok_injective {ℓ κ} :
    {E : Type κ} {A : Type ℓ} → (a b : A) → Path (Outcome E A) (ok a) (ok b) → a ≡ b
ok_injective a b h = cc

pub Outcome-cases {ℓ κ} :
    {E : Type κ} {A : Type ℓ} (o : Outcome E A) → ((a : A) × (o ≡ ok a)) ⊎ ((e : E) × (o ≡ err e))
Outcome-cases (ok a) = inl (a, refl)
Outcome-cases (err e) = inr (e, refl)
