-- ===== src/Prelude/Slices.antt =====
-- Parts of a list: the rows that pass a test, and the pages of LIMIT and OFFSET.
use Prim.Native.Nat.{ℕ, zero, suc, ◌+◌, ◌≤◌}
use mathlib.Core.Path.{◌≡◌, refl, ap, sym, ◌∙◌}
use mathlib.Core.Logic.{inl, inr}
use mathlib.Core.Bool.{Bool, true}
use mathlib.Core.List.{List, [], ◌∷◌, ◌++◌}
use native.Mathlib.Omega.{arith}
use real_estate_webapp.Prelude.Tests.{if◌then◌else◌, Bool-cases}
use real_estate_webapp.Prelude.Lists.{length, All}

module _ {ℓ} {A : Type ℓ} where
  -- `WHERE`
  unfoldable pub rows_where : (A → Bool) → List A → List A
  rows_where p [] = []
  rows_where p (x ∷ xs) = if p x then x ∷ rows_where p xs else rows_where p xs

  -- `LIMIT`
  unfoldable pub take : ℕ → List A → List A
  take zero xs = []
  take (suc n) [] = []
  take (suc n) (x ∷ xs) = x ∷ take n xs

  -- `OFFSET`
  unfoldable pub drop : ℕ → List A → List A
  drop zero xs = xs
  drop (suc n) [] = []
  drop (suc n) (x ∷ xs) = drop n xs

  pub take-all : (n : ℕ) (xs : List A) → length xs ≤ n → take n xs ≡ xs
  unfolding take
  take-all zero [] h = refl
  take-all zero (x ∷ xs) h = absurd (omega (arith, h))
  take-all (suc n) [] h = refl
  take-all (suc n) (x ∷ xs) h = ap (◌∷◌ x) (take-all n xs (omega (arith, h)))

  pub take-of_nil : (n : ℕ) → take n [] ≡ []
  unfolding take
  take-of_nil zero = refl
  take-of_nil (suc n) = refl

  pub drop-past_end : (n : ℕ) (xs : List A) → length xs ≤ n → drop n xs ≡ []
  unfolding drop
  drop-past_end zero [] h = refl
  drop-past_end zero (x ∷ xs) h = absurd (omega (arith, h))
  drop-past_end (suc n) [] h = refl
  drop-past_end (suc n) (x ∷ xs) h = drop-past_end n xs (omega (arith, h))

  -- Two slices that meet.
  pub take-append_drop : (n m : ℕ) (xs : List A) → take n xs ++ take m (drop n xs) ≡ take (n + m) xs
  unfolding take drop
  take-append_drop zero m xs = ap (λ (k : ℕ). take k xs) (omega arith)
  take-append_drop (suc n) m [] = take-of_nil m ∙ sym (take-of_nil (suc n + m))
  take-append_drop (suc n) m (x ∷ xs) =
      ap (◌∷◌ x) (take-append_drop n m xs)
      ∙ (let same : suc (n + m) ≡ suc n + m = omega arith in ap (λ (k : ℕ). take k (x ∷ xs)) same)

  pub length-take : (n : ℕ) (xs : List A) → length (take n xs) ≤ n
  unfolding take
  length-take zero xs = omega arith
  length-take (suc n) [] = omega arith
  length-take (suc n) (x ∷ xs) = omega (arith, length-take n xs)

  pub length-drop_add : (n : ℕ) (xs : List A) → length xs ≤ n + length (drop n xs)
  unfolding drop
  length-drop_add zero xs = omega arith
  length-drop_add (suc n) [] = omega arith
  length-drop_add (suc n) (x ∷ xs) = omega (arith, length-drop_add n xs)

module _ {ℓ κ} {A : Type ℓ} (P : A → Type κ) where
  pub All-take : (n : ℕ) (xs : List A) → All P xs → All P (take n xs)
  unfolding take
  All-take zero xs h = tt
  All-take (suc n) [] h = tt
  All-take (suc n) (x ∷ xs) (h, hs) = (h, All-take n xs hs)

  pub All-drop : (n : ℕ) (xs : List A) → All P xs → All P (drop n xs)
  unfolding drop
  All-drop zero xs h = h
  All-drop (suc n) [] h = tt
  All-drop (suc n) (x ∷ xs) (h, hs) = All-drop n xs hs

pub All-rows_where {ℓ} :
    {A : Type ℓ} (p : A → Bool) (xs : List A) → All (λ x. p x ≡ true) (rows_where p xs)
unfolding rows_where
All-rows_where p [] = tt
All-rows_where p (x ∷ xs) = elim (Bool-cases (p x)) [
  | inl on ↦ rw (on) (on, All-rows_where p xs)
  | inr off ↦ rw (off) (All-rows_where p xs)
]

pub All-rows_where_kept {ℓ κ} :
    {A : Type ℓ} (P : A → Type κ) (p : A → Bool) (xs : List A) → All P xs → All P (rows_where p xs)
unfolding rows_where
All-rows_where_kept P p [] h = tt
All-rows_where_kept P p (x ∷ xs) (h, hs) = elim (Bool-cases (p x)) [
  | inl on ↦ rw (on) (h, All-rows_where_kept P p xs hs)
  | inr off ↦ rw (off) (All-rows_where_kept P p xs hs)
]
