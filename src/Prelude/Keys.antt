-- ===== src/Prelude/Keys.antt =====
-- Tables with a primary key: a search that finds a row is answered by the search for its key.
use Prim.Native.Nat.{ℕ, zero, suc}
use mathlib.Core.Path.{◌≡◌, refl, sym}
use mathlib.Core.Logic.{inl, inr}
use mathlib.Core.Bool.{Bool, true, false}
use mathlib.Core.List.{List, [], ◌∷◌}
use mathlib.Core.Option.{some, some-injective}
use native.Mathlib.Omega.{arith}
use real_estate_webapp.Prelude.Tests.{◌==◌, Bool-cases}
use real_estate_webapp.Prelude.Lists.{any, find, get_elem?, find_of_any-false}

module _ {ℓ} {A : Type ℓ} (key : A → ℕ) where
  abbrev pub IsKeyed : List A → Type 0
  IsKeyed [] = Unit
  IsKeyed (x ∷ xs) = (any (λ y. key y == key x) xs ≡ false) × IsKeyed xs

  pub find_key :
      (q : A → Bool) (xs : List A) (r : A)
      → IsKeyed xs
      → find q xs ≡ some r
      → find (λ y. key y == key r) xs ≡ some r
  unfolding find
  find_key q [] r k e = ground arith
  find_key q (x ∷ xs) r (fresh, k) e = elim (Bool-cases (q x)) [
    | inl hit ↦
        let same : x ≡ r = some-injective _ _ (rw (hit) at e) in rw (sym same) (ground arith)
    | inr miss ↦
        let rest : find q xs ≡ some r = rw (miss) at e in
        let other = find_of_any-false (λ y. key y == key x) q xs r fresh rest in
        ground (arith, other, find_key q xs r k rest)
  ]

  any_of_get_elem? :
      (p : A → Bool) (xs : List A) (i : ℕ) (r : A)
      → any p xs ≡ false
      → get_elem? xs i ≡ some r
      → p r ≡ false
  unfolding any
  any_of_get_elem? p [] i r h e = ground arith
  any_of_get_elem? p (x ∷ xs) zero r h e =
      let same : x ≡ r = some-injective _ _ e in rw (sym same) (ground (arith, h))
  any_of_get_elem? p (x ∷ xs) (suc i) r h e = any_of_get_elem? p xs i r (ground (arith, h)) e

  -- A search that asks for the key, and more, of a row that is there.
  pub find_at :
      (q : A → Bool) (xs : List A) (i : ℕ) (r : A)
      → IsKeyed xs
      → get_elem? xs i ≡ some r
      → q r ≡ true
      → ((y : A) → q y ≡ true → key y ≡ key r)
      → find q xs ≡ some r
  unfolding find
  find_at q [] i r k e on only = ground arith
  find_at q (x ∷ xs) zero r k e on only =
      let same : x ≡ r = some-injective _ _ e in rw (same, on) refl
  find_at q (x ∷ xs) (suc i) r (fresh, k) e on only =
      let other = any_of_get_elem? (λ y. key y == key x) xs i r fresh e in
      elim (Bool-cases (q x)) [
        | inl hit ↦ ground (arith, only x hit, other)
        | inr miss ↦ rw (miss) (find_at q xs i r k e on only)
      ]
