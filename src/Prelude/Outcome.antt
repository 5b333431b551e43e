-- ===== src/Prelude/Outcome.antt =====
-- Code that returns or throws, and its `do` blocks.
use mathlib.Core.Path.{◌≡◌, refl, ap}
use mathlib.Core.Logic.{◌⊎◌, ◌≢◌, inl, inr}
use mathlib.Core.Option.{Option, none, some}

pub data Result {ℓ κ} (E : Type κ) (A : Type ℓ) : Type (ℓ ⊔ κ) where
  ok : A → Result E A
  err : E → Result E A

abbrev pub or_throw {ℓ κ} : {E : Type κ} {A : Type ℓ} → E → Option A → Result E A
or_throw e none = err e
or_throw e (some a) = ok a

pub Result-cases {ℓ κ} :
    {E : Type κ} {A : Type ℓ} (r : Result E A) → ((a : A) × (r ≡ ok a)) ⊎ ((e : E) × (r ≡ err e))
Result-cases (ok a) = inl (a, refl)
Result-cases (err e) = inr (e, refl)

pub ok-injective {ℓ κ} :
    {E : Type κ} {A : Type ℓ} (a b : A) → ◌≡◌ {A = Result E A} (ok a) (ok b) → a ≡ b
ok-injective {E = E} {A = A} a b e = ap (value a) e
  where
    value : A → Result E A → A
    value d (ok x) = x
    value d (err x) = d

pub err-ne-ok {ℓ κ} :
    {E : Type κ} {A : Type ℓ} (e : E) (a : A) → ◌≢◌ {A = Result E A} (err e) (ok a)
err-ne-ok e a h = cc (h)
