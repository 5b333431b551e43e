-- ===== src/Prelude/Filtering.antt =====
-- Filters and searches together: what holds of every row, of the row that is found, and of the rows
-- that a filter keeps.
use Prim.Native.Nat.{ℕ}
use mathlib.Core.Path.{◌≡◌, refl, ap, subst, ◌∙◌}
use mathlib.Core.Logic.{inl, inr}
use mathlib.Core.Bool.{Bool, true, false}
use mathlib.Core.Option.{none, some, some-injective}
use mathlib.Core.List.{List, [], ◌∷◌, ◌++◌, map}
use native.Mathlib.Omega.{arith}
use real_estate_webapp.Prelude.Tests.{Bool-cases}
use real_estate_webapp.Prelude.Lists.{All, any, find}
use real_estate_webapp.Prelude.Keys.{IsKeyed}
use real_estate_webapp.Prelude.Slices.{rows_where, All-rows_where_kept}

module _ {ℓ} {A : Type ℓ} where
  pub any-false-All : (p : A → Bool) (xs : List A) → any p xs ≡ false → All (λ x. p x ≡ false) xs
  unfolding any
  any-false-All p [] h = tt
  any-false-All p (x ∷ xs) h = (ground (arith, h), any-false-All p xs (ground (arith, h)))

  pub All-any-false : (p : A → Bool) (xs : List A) → All (λ x. p x ≡ false) xs → any p xs ≡ false
  unfolding any
  All-any-false p [] h = refl
  All-any-false p (x ∷ xs) (h, hs) = rw (h) (All-any-false p xs hs)

  pub find-none-All : (p : A → Bool) (xs : List A) → find p xs ≡ none → All (λ x. p x ≡ false) xs
  unfolding find
  find-none-All p [] h = tt
  find-none-All p (x ∷ xs) h = elim (Bool-cases (p x)) [
    | inl on ↦ ground (arith, h, on)
    | inr off ↦ (off, find-none-All p xs (rw (off) at h))
  ]

  pub All-find :
      (P : A → Type 0) (p : A → Bool) (xs : List A) (x : A) → All P xs → find p xs ≡ some x → P x
  unfolding find
  All-find P p [] x h e = ground (arith, e)
  All-find P p (y ∷ xs) x (h, hs) e = elim (Bool-cases (p y)) [
    | inl on ↦ subst P (some-injective y x (rw (on) at e)) h
    | inr off ↦ All-find P p xs x hs (rw (off) at e)
  ]

  pub any-false-rows_where :
      (p q : A → Bool) (xs : List A) → any p xs ≡ false → any p (rows_where q xs) ≡ false
  any-false-rows_where p q xs h =
      All-any-false p (rows_where q xs)
        (All-rows_where_kept (λ x. p x ≡ false) q xs (any-false-All p xs h))

  pub IsKeyed-rows_where :
      (key : A → ℕ) (q : A → Bool) (xs : List A) → IsKeyed key xs → IsKeyed key (rows_where q xs)
  unfolding rows_where
  IsKeyed-rows_where key q [] k = tt
  IsKeyed-rows_where key q (x ∷ xs) (fresh, k) = elim (Bool-cases (q x)) [
    | inl on ↦ rw (on) (any-false-rows_where _ q xs fresh, IsKeyed-rows_where key q xs k)
    | inr off ↦ rw (off) (IsKeyed-rows_where key q xs k)
  ]

  pub rows_where_cong :
      (p q : A → Bool) (xs : List A) → All (λ x. p x ≡ q x) xs → rows_where p xs ≡ rows_where q xs
  unfolding rows_where
  rows_where_cong p q [] h = refl
  rows_where_cong p q (x ∷ xs) (h, hs) = rw (h, rows_where_cong p q xs hs) refl

  -- A search for what a filter keeps finds the same row behind the filter.
  pub find-rows_where :
      (p q : A → Bool) (xs : List A) (x : A)
      → find p xs ≡ some x
      → q x ≡ true
      → find p (rows_where q xs) ≡ some x
  unfolding find rows_where
  find-rows_where p q [] x e h = e
  find-rows_where p q (y ∷ xs) x e h = elim (Bool-cases (p y)) [
    | inl hit ↦
        let same : y ≡ x = some-injective y x (rw (hit) at e) in
        let kept : q y ≡ true = ap q same ∙ h in rw (kept, hit, same) refl
    | inr miss ↦ elim (Bool-cases (q y)) [
      | inl on ↦ rw (on, miss) (find-rows_where p q xs x (rw (miss) at e) h)
      | inr off ↦ rw (off) (find-rows_where p q xs x (rw (miss) at e) h)
    ]
  ]

  pub find_cong : (p q : A → Bool) (xs : List A) → All (λ x. p x ≡ q x) xs → find p xs ≡ find q xs
  unfolding find
  find_cong p q [] h = refl
  find_cong p q (x ∷ xs) (h, hs) = rw (h, find_cong p q xs hs) refl

  pub All-both {κ μ} :
      (P : A → Type κ) (Q : A → Type μ) (xs : List A)
      → All P xs
      → All Q xs
      → All (λ x. P x × Q x) xs
  All-both P Q [] h k = tt
  All-both P Q (x ∷ xs) (h, hs) (k, ks) = ((h, k), All-both P Q xs hs ks)

pub find_of_any {ℓ} :
    {A : Type ℓ} (p : A → Bool) (xs : List A) → any p xs ≡ true → (x : A) × (find p xs ≡ some x)
unfolding find any
find_of_any p [] h = absurd (ground arith)
find_of_any p (y ∷ xs) h = elim (Bool-cases (p y)) [
  | inl here ↦ (y, rw here refl)
  | inr later ↦ rw later (find_of_any p xs (rw later at h))
]

pub All-map_of {ℓ κ} :
    {A : Type ℓ} {B : Type κ} (P : B → Type 0) (f : A → B) (xs : List A)
    → All (λ x. P (f x)) xs
    → All P (map f xs)
All-map_of P f [] h = tt
All-map_of P f (x ∷ xs) (h, hs) = (h, All-map_of P f xs hs)

pub All-append {ℓ} :
    {A : Type ℓ} (P : A → Type 0) (xs ys : List A) → All P xs → All P ys → All P (xs ++ ys)
All-append P [] ys h k = k
All-append P (x ∷ xs) ys (h, hs) k = (h, All-append P xs ys hs k)
