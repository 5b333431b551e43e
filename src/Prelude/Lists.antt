-- ===== src/Prelude/Lists.antt =====
-- Lists measured by native numbers, and searched by Boolean tests.
use Prim.Native.Nat.{ℕ, zero, suc, ◌+◌, ◌≤◌}
use mathlib.Core.Path.{◌≡◌, refl, sym, subst, ap}
use mathlib.Core.Bool.{Bool, true, false, ◌||◌}
use mathlib.Core.List.{List, [], ◌∷◌, ◌++◌}
use mathlib.Core.Option.{Option, none, some, some-injective, none-ne-some}
use native.Mathlib.Omega.{arith}
use real_estate_webapp.Prelude.Tests.{if◌then◌else◌, Bool-cases}
use mathlib.Core.Logic.{inl, inr}

module _ {ℓ} {A : Type ℓ} where
  abbrev pub length : List A → ℕ
  length [] = 0
  length (x ∷ xs) = suc (length xs)

  -- The first entry that passes the test: `SELECT … LIMIT 1` over a unique key.
  unfoldable pub find : (A → Bool) → List A → Option A
  find p [] = none
  find p (x ∷ xs) = if p x then some x else find p xs

  unfoldable pub any : (A → Bool) → List A → Bool
  any p [] = false
  any p (x ∷ xs) = p x || any p xs

  -- `UPDATE … SET … WHERE`, row by row.
  unfoldable pub update_where : (A → Bool) → (A → A) → List A → List A
  update_where p f [] = []
  update_where p f (x ∷ xs) = (if p x then f x else x) ∷ update_where p f xs

  -- How many rows a statement touches.
  unfoldable pub count_where : (A → Bool) → List A → ℕ
  count_where p [] = 0
  count_where p (x ∷ xs) = if p x then suc (count_where p xs) else count_where p xs

  pub length-update_where :
      (p : A → Bool) (f : A → A) (xs : List A) → length (update_where p f xs) ≡ length xs
  unfolding update_where
  length-update_where p f [] = refl
  length-update_where p f (x ∷ xs) = omega (arith, length-update_where p f xs)

  pub length-append : (xs ys : List A) → length (xs ++ ys) ≡ length xs + length ys
  length-append [] ys = omega arith
  length-append (x ∷ xs) ys = omega (arith, length-append xs ys)

  pub find_holds : (p : A → Bool) (xs : List A) (x : A) → find p xs ≡ some x → p x ≡ true
  unfolding find
  find_holds p [] x h = ground arith
  find_holds p (y ∷ xs) x h = ground (arith, find_holds p xs x)

  pub any_of_find : (p : A → Bool) (xs : List A) (x : A) → find p xs ≡ some x → any p xs ≡ true
  unfolding find any
  any_of_find p [] x h = ground arith
  any_of_find p (y ∷ xs) x h = ground (arith, any_of_find p xs x)

  pub find-none_of_any : (p : A → Bool) (xs : List A) → any p xs ≡ false → find p xs ≡ none
  unfolding find any
  find-none_of_any p [] h = refl
  find-none_of_any p (y ∷ xs) h = ground (arith, find-none_of_any p xs)

  pub find_of_any-false :
      (p q : A → Bool) (xs : List A) (x : A) → any p xs ≡ false → find q xs ≡ some x → p x ≡ false
  unfolding find any
  find_of_any-false p q [] x h e = ground arith
  find_of_any-false p q (y ∷ xs) x h e = ground (arith, find_of_any-false p q xs x)

  -- An update that leaves a test as it was.
  pub any-update_where :
      (p q : A → Bool) (f : A → A)
      → ((x : A) → p (f x) ≡ p x)
      → (xs : List A) → any p (update_where q f xs) ≡ any p xs
  unfolding any update_where
  any-update_where p q f h [] = refl
  any-update_where p q f h (x ∷ xs) = ground (arith, h x, any-update_where p q f h xs)

  -- An update that never turns a test on.
  pub any-update_where-false :
      (p q : A → Bool) (f : A → A)
      → ((x : A) → p x ≡ false → p (f x) ≡ false)
      → (xs : List A) → any p xs ≡ false
      → any p (update_where q f xs) ≡ false
  unfolding any update_where
  any-update_where-false p q f h [] e = refl
  any-update_where-false p q f h (x ∷ xs) e = ground (arith, h x, any-update_where-false p q f h xs)

  -- An update of exactly the rows that pass a test, after which they no longer do.
  pub any-update_where_self :
      (p : A → Bool) (f : A → A)
      → ((x : A) → p (f x) ≡ false)
      → (xs : List A) → any p (update_where p f xs) ≡ false
  unfolding any update_where
  any-update_where_self p f h [] = refl
  any-update_where_self p f h (x ∷ xs) = ground (arith, h x, any-update_where_self p f h xs)

  pub count_where_of_any : (p : A → Bool) (xs : List A) → any p xs ≡ false → count_where p xs ≡ 0
  unfolding any count_where
  count_where_of_any p [] h = refl
  count_where_of_any p (x ∷ xs) h = ground (arith, count_where_of_any p xs)

  -- A search by a key that the update keeps.
  pub find-update_where :
      (p q : A → Bool) (f : A → A)
      → ((x : A) → p (f x) ≡ p x)
      → (xs : List A) (x : A) → find p xs ≡ some x
      → find p (update_where q f xs) ≡ some (if q x then f x else x)
  unfolding find update_where
  find-update_where p q f h [] x e = ground arith
  find-update_where p q f h (y ∷ xs) x e = ground (arith, h y, find-update_where p q f h xs x)

  pub find-update_where-none :
      (p q : A → Bool) (f : A → A)
      → ((x : A) → p (f x) ≡ p x)
      → (xs : List A) → find p xs ≡ none
      → find p (update_where q f xs) ≡ none
  unfolding find update_where
  find-update_where-none p q f h [] e = refl
  find-update_where-none p q f h (y ∷ xs) e = ground (arith, h y, find-update_where-none p q f h xs)

  pub count_where-update_le :
      (p q : A → Bool) (f : A → A)
      → ((x : A) → p x ≡ false → p (f x) ≡ false)
      → (xs : List A) → count_where p (update_where q f xs) ≤ count_where p xs
  unfolding count_where update_where
  count_where-update_le p q f h [] = omega arith
  count_where-update_le p q f h (x ∷ xs) = ground (arith, h x, count_where-update_le p q f h xs)

  pub any_of_count : (p : A → Bool) (xs : List A) → count_where p xs ≡ 0 → any p xs ≡ false
  unfolding any count_where
  any_of_count p [] h = refl
  any_of_count p (x ∷ xs) h = ground (arith, any_of_count p xs)

  -- Of at most one row, an update that switches the test off leaves none.
  pub any-update_where_single :
      (p q : A → Bool) (f : A → A)
      → ((x : A) → p (f x) ≡ false)
      → (xs : List A) (x : A) → count_where p xs ≤ 1
      → find p xs ≡ some x
      → q x ≡ true
      → any p (update_where q f xs) ≡ false
  unfolding any count_where find update_where
  any-update_where_single p q f h [] x c e on = refl
  any-update_where_single p q f h (y ∷ xs) x c e on = ground (
    arith,
    h y,
    any-update_where_single p q f h xs x,
    any_of_count p xs,
    any-update_where-false p q f (λ z _. h z) xs,
  )

  abbrev pub get_elem? : List A → ℕ → Option A
  get_elem? [] i = none
  get_elem? (x ∷ xs) zero = some x
  get_elem? (x ∷ xs) (suc i) = get_elem? xs i

module _ {ℓ κ} {A : Type ℓ} (P : A → Type κ) where
  abbrev pub All : List A → Type κ
  All [] = Unit
  All (x ∷ xs) = P x × All xs

  pub All-get_elem? : (xs : List A) (i : ℕ) (x : A) → All xs → get_elem? xs i ≡ some x → P x
  All-get_elem? [] i x h e = absurd (none-ne-some x e)
  All-get_elem? (y ∷ xs) zero x (h, _) e = subst P (some-injective y x e) h
  All-get_elem? (y ∷ xs) (suc i) x (_, h) e = All-get_elem? xs i x h e

pub All-map {ℓ κ μ} :
    {A : Type ℓ} (P : A → Type κ) (Q : A → Type μ)
    → ((x : A) → P x → Q x)
    → (xs : List A) → All P xs
    → All Q xs
All-map P Q f [] h = tt
All-map P Q f (x ∷ xs) (h, hs) = (f x h, All-map P Q f xs hs)

module _ {ℓ} {A : Type ℓ} where
  -- The row that an update leaves at a place.
  pub get_elem-update_where :
      (p : A → Bool) (f : A → A) (xs : List A) (i : ℕ) (x : A)
      → get_elem? xs i ≡ some x
      → get_elem? (update_where p f xs) i ≡ some (if p x then f x else x)
  unfolding update_where
  get_elem-update_where p f [] i x e = absurd (none-ne-some x e)
  get_elem-update_where p f (y ∷ xs) zero x e =
      ap (λ z. some (if p z then f z else z)) (some-injective _ _ e)
  get_elem-update_where p f (y ∷ xs) (suc i) x e = get_elem-update_where p f xs i x e

  pub get_elem-update_where_back :
      (p : A → Bool) (f : A → A) (xs : List A) (i : ℕ) (y : A)
      → get_elem? (update_where p f xs) i ≡ some y
      → (x : A) × (get_elem? xs i ≡ some x) × (y ≡ (if p x then f x else x))
  unfolding update_where
  get_elem-update_where_back p f [] i y e = absurd (none-ne-some y e)
  get_elem-update_where_back p f (x ∷ xs) zero y e = (x, refl, sym (some-injective _ _ e))
  get_elem-update_where_back p f (x ∷ xs) (suc i) y e = get_elem-update_where_back p f xs i y e

pub All-of_get_elem {ℓ κ} :
    {A : Type ℓ} (P : A → Type κ) (xs : List A)
    → ((i : ℕ) (x : A) → get_elem? xs i ≡ some x → P x)
    → All P xs
All-of_get_elem P [] h = tt
All-of_get_elem P (x ∷ xs) h = (h 0 x refl, All-of_get_elem P xs (λ i y e. h (suc i) y e))

pub get_elem_of_find {ℓ} :
    {A : Type ℓ} (p : A → Bool) (xs : List A) (x : A)
    → find p xs ≡ some x
    → (i : ℕ) × (get_elem? xs i ≡ some x)
unfolding find
get_elem_of_find p [] x e = absurd (none-ne-some x e)
get_elem_of_find p (y ∷ xs) x e = elim (Bool-cases (p y)) [
  | inl hit ↦ (0, rw (hit) at e)
  | inr miss ↦ let (i, at) = get_elem_of_find p xs x (rw (miss) at e) in (suc i, at)
]
