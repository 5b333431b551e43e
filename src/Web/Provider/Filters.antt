-- ===== src/Web/Provider/Filters.antt =====
-- The tests of the two searches, one by one: by words over the sample data, by numbers in the API.
use real_estate_webapp.Prelude.{
  ℕ, ◌≡◌, ◌∙◌, sym, ap, subst, refl, Bool, true, false, ◌&&◌, ◌||◌, Option, none, some,
  some-injective, List, [], ◌∷◌, map, ◌==◌, ==_iff, leb, arith, All, any, get_or, get_elem?, Text,
  text_eq, text_eq_refl, eq_of_text_eq, read_word,
}
use real_estate_webapp.Catalog.Filters.{
  or_any, given, any_given, either_given, at_least, none_or_at_most, has_features,
}
use real_estate_webapp.Web.Provider.{among, known_from, from, up_to, every_listed}

same_truth : (a b : Bool) → (a ≡ true → b ≡ true) → (b ≡ true → a ≡ true) → a ≡ b
same_truth true b f g = sym (f refl)
same_truth false true f g = g refl
same_truth false false f g = refl

-- Two values have one word exactly if they have one number.
module _ {A : Type 0} (word : A → Text) (valid : List A)
    (reads : (x : A) → read_word word valid (word x) ≡ some x) (number : A → ℕ)
    (table : List A) where
  pub same_word :
      (x y : A)
      → get_elem? table (number x) ≡ some x
      → get_elem? table (number y) ≡ some y
      → text_eq (word x) (word y) ≡ (number x == number y)
  same_word x y hx hy =
      same_truth (text_eq (word x) (word y)) (number x == number y)
        (λ h. (==_iff (number x) (number y)).1 (
          ap number (
            some-injective x y (
              sym (reads x)
              ∙ ap (read_word word valid) (eq_of_text_eq (word x) (word y) h)
              ∙ reads y))))
        (λ h.
          subst (λ z. text_eq (word x) (word z) ≡ true)
            (some-injective x y
              (sym hx ∙ ap (get_elem? table) ((==_iff (number x) (number y)).0 h) ∙ hy))
            (text_eq_refl (word x)))

pub any_cong {ℓ} :
    {A : Type ℓ} (p q : A → Bool) (xs : List A) → All (λ x. p x ≡ q x) xs → any p xs ≡ any q xs
unfolding any
any_cong p q [] h = refl
any_cong p q (x ∷ xs) (h, hs) = rw (h, any_cong p q xs hs) refl

pub All-of_each {ℓ} : {A : Type ℓ} (P : A → Type 0) → ((x : A) → P x) → (xs : List A) → All P xs
All-of_each P h [] = tt
All-of_each P h (x ∷ xs) = (h x, All-of_each P h xs)

pub any_given-among {ℓ} :
    {A : Type ℓ} (p q : A → Bool) (o : Option (List A))
    → All (λ x. p x ≡ q x) (get_or o [])
    → any_given (get_or o []) p ≡ among o q
any_given-among p q none h = refl
any_given-among p q (some []) h = refl
any_given-among p q (some (x ∷ xs)) h = any_cong p q (x ∷ xs) h

or_any-map {ℓ} : {A : Type ℓ} (p : A → Bool) (xs : List A) → or_any (map p xs) ≡ any p xs
unfolding any
or_any-map p [] = refl
or_any-map p (x ∷ xs) = ap (◌||◌ (p x)) (or_any-map p xs)

pub either_given-among {ℓ} :
    {A : Type ℓ} (p : A → Bool) (o : Option (List A)) → either_given (get_or o []) p ≡ among o p
either_given-among p none = refl
either_given-among p (some []) = refl
either_given-among p (some (x ∷ xs)) = or_any-map p (x ∷ xs)

any-map {ℓ κ} :
    {A : Type ℓ} {B : Type κ} (f : A → B) (p : B → Bool) (xs : List A)
    → any p (map f xs) ≡ any (λ x. p (f x)) xs
unfolding any
any-map f p [] = refl
any-map f p (x ∷ xs) = ap (◌||◌ (p (f x))) (any-map f p xs)

pub any_given-map {ℓ κ} :
    {A : Type ℓ} {B : Type κ} (f : A → B) (p : B → Bool) (xs : List A)
    → any_given (map f xs) p ≡ any_given xs (λ x. p (f x))
any_given-map f p [] = refl
any_given-map f p (x ∷ xs) = any-map f p (x ∷ xs)

pub has_features-every_listed :
    (wanted listed : List Text) → has_features wanted listed ≡ every_listed wanted listed
unfolding has_features every_listed
has_features-every_listed [] listed = refl
has_features-every_listed (w ∷ ws) listed =
    ap (◌&&◌ (any (text_eq w) listed)) (has_features-every_listed ws listed)

pub given-from : (o : Option ℕ) (n : ℕ) → given o (λ (b : ℕ). leb b n) ≡ from o n
given-from none n = refl
given-from (some b) n = ground arith

pub given-up_to : (o : Option ℕ) (n : ℕ) → given o (λ (b : ℕ). leb n b) ≡ up_to o n
given-up_to none n = refl
given-up_to (some b) n = ground arith

pub given-known_from : (o v : Option ℕ) → given o (at_least v) ≡ known_from o v
given-known_from none v = refl
given-known_from (some b) none = refl
given-known_from (some b) (some n) = ground arith

pub given-none_or : (o v : Option ℕ) → given o (none_or_at_most v) ≡ up_to o (get_or v 0)
given-none_or none v = refl
given-none_or (some b) none = ground arith
given-none_or (some b) (some n) = ground arith
