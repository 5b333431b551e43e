-- ===== src/Prelude/Split.antt =====
-- `s.split(c)` for a single separator and `xs.join(c)`, and the words of a fixed list.
use Prim.Native.Nat.{ℕ}
use mathlib.Core.Path.{◌≡◌, refl, ap, ◌∙◌}
use mathlib.Core.Bool.{Bool, false}
use mathlib.Core.List.{List, [], ◌∷◌, ◌++◌, map}
use mathlib.Core.Option.{Option, none, some}
use native.Mathlib.Omega.{arith}
use real_estate_webapp.Prelude.Tests.{◌==◌, if◌then◌else◌}
use real_estate_webapp.Prelude.Lists.{any, find, All}
use real_estate_webapp.Prelude.Strings.{Text, text_eq}

abbrev pub has_unit : ℕ → Text → Bool
has_unit c s = any (λ x. x == c) s

abbrev pub onto_first : ℕ → List Text → List Text
onto_first c [] = (c ∷ []) ∷ []
onto_first c (w ∷ ws) = (c ∷ w) ∷ ws

unfoldable pub split : (sep : ℕ) → Text → List Text
split sep [] = [] ∷ []
split sep (c ∷ s) = let rest = split sep s in if c == sep then [] ∷ rest else onto_first c rest

unfoldable pub join : (sep : ℕ) → List Text → Text
join sep [] = []
join sep (w ∷ []) = w
join sep (w ∷ v ∷ ws) = w ++ sep ∷ join sep (v ∷ ws)

pub split_whole : (sep : ℕ) (w : Text) → has_unit sep w ≡ false → split sep w ≡ w ∷ []
unfolding split any
split_whole sep [] h = refl
split_whole sep (c ∷ w) h = ground (arith, split_whole sep w)

pub split-append :
    (sep : ℕ) (w t : Text) → has_unit sep w ≡ false → split sep (w ++ sep ∷ t) ≡ w ∷ split sep t
unfolding split any
split-append sep [] t h = ground arith
split-append sep (c ∷ w) t h = ground (arith, split-append sep w t)

-- The words that were joined come back, where none contains the separator.
pub split-join :
    (sep : ℕ) (w : Text) (ws : List Text)
    → All (λ x. has_unit sep x ≡ false) (w ∷ ws)
    → split sep (join sep (w ∷ ws)) ≡ w ∷ ws
unfolding join
split-join sep w [] (h, _) = split_whole sep w h
split-join sep w (v ∷ ws) (h, hs) =
    split-append sep w (join sep (v ∷ ws)) h ∙ ap (◌∷◌ w) (split-join sep v ws hs)

module _ {ℓ} {A : Type ℓ} where
  abbrev pub onto : Option A → List A → List A
  onto none xs = xs
  onto (some x) xs = x ∷ xs

  -- The values that a test makes of the entries that pass it.
  unfoldable pub keep_some {κ} : {B : Type κ} → (B → Option A) → List B → List A
  keep_some f [] = []
  keep_some f (t ∷ ts) = onto (f t) (keep_some f ts)

  pub keep_some-cons {κ} :
      {B : Type κ} (f : B → Option A) (t : B) (x : A) (ts : List B)
      → f t ≡ some x
      → keep_some f (t ∷ ts) ≡ x ∷ keep_some f ts
  unfolding keep_some
  keep_some-cons f t x ts h = ap (λ o. onto o (keep_some f ts)) h

  pub keep_some-map {κ} :
      {B : Type κ} (f : B → Option A) (g : A → B)
      → ((x : A) → f (g x) ≡ some x)
      → (xs : List A) → keep_some f (map g xs) ≡ xs
  unfolding keep_some
  keep_some-map f g h [] = refl
  keep_some-map f g h (x ∷ xs) = rw (h x) (ap (◌∷◌ x) (keep_some-map f g h xs))

  -- `VALID.includes(t)`
  unfoldable pub read_word : (word : A → Text) → (valid : List A) → Text → Option A
  read_word word valid t = find (λ x. text_eq (word x) t) valid
