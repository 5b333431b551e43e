-- ===== src/Web/Wire/Fields.antt =====
-- How the parts of a query string are read back, one field at a time.
use real_estate_webapp.Prelude.{
  ◌≤◌, ◌≡◌, ◌∙◌, refl, ap, true, Option, none, some, List, [], ◌∷◌, ◌++◌, map, arith, All, find,
  length, take, take-all, Text, text_eq, split-append, split_whole, keep_some, keep_some-cons,
  keep_some-map, read_word,
}
use real_estate_webapp.Catalog.Vocabulary.{
  ListingStatusDto, active, under_offer, sold, rented, coming_soon, TransactionTypeDto, sale, rent,
  lease,
}
use real_estate_webapp.Catalog.Filters.{LocalityRefDto}
use real_estate_webapp.Web.Query.{locality_ref_key, is_filled}
use real_estate_webapp.Web.Query.RoundTrip.{IsSlug}
use real_estate_webapp.Web.Wire.{
  status_dto_word, transaction_word, statuses, transactions, scalar_text, scalar, refused_if_none,
  is_in, bounded_text, as_array, pair_of_parts, parse_locality_ref,
}

abbrev pub IsSentText : Option Text → Type 0
IsSentText none = Unit
IsSentText (some t) = (is_filled t ≡ true) × (length t ≤ 200)

abbrev pub IsSentRef : LocalityRefDto → Type 0
IsSentRef ref = IsSlug ref.city_slug × IsSlug ref.locality_slug

abbrev pub IsSentFeature : Text → Type 0
IsSentFeature t = (is_filled t ≡ true) × (length t ≤ 60)

short_features : (ts : List Text) → All IsSentFeature ts → map (take 60) ts ≡ ts
short_features [] h = refl
short_features (t ∷ ts) (h, hs) = rw (take-all 60 t h.1, short_features ts hs) refl

pub as_array-filled : (ts : List Text) → All (λ t. is_filled t ≡ true) ts → as_array ts ≡ ts
unfolding as_array
as_array-filled [] h = refl
as_array-filled ([] ∷ ts) h = ground (arith, h.0)
as_array-filled ((c ∷ s) ∷ ts) h = refl

features_filled : (ts : List Text) → All IsSentFeature ts → All (λ t. is_filled t ≡ true) ts
features_filled [] h = tt
features_filled (t ∷ ts) (h, hs) = (h.0, features_filled ts hs)

words_filled {ℓ} :
    {A : Type ℓ} (word : A → Text)
    → ((x : A) → is_filled (word x) ≡ true)
    → (xs : List A) → All (λ t. is_filled t ≡ true) (map word xs)
words_filled word h [] = tt
words_filled word h (x ∷ xs) = (h x, words_filled word h xs)

module _ {ℓ} {A : Type ℓ} (word : A → Text) (valid : List A)
    (reads : (x : A) → read_word word valid (word x) ≡ some x) where
  pub kept_words :
      ((x : A) → is_filled (word x) ≡ true)
      → (xs : List A) → keep_some (read_word word valid) (as_array (map word xs)) ≡ xs
  kept_words filled xs =
      ap (keep_some (read_word word valid))
        (as_array-filled (map word xs) (words_filled word filled xs))
      ∙ keep_some-map (read_word word valid) word reads xs

  pub is_in-scalar : (o : Option A) → is_in (read_word word valid) (scalar word o) ≡ some o
  unfolding is_in
  is_in-scalar none = refl
  is_in-scalar (some x) = ap refused_if_none (reads x)

pub bounded_text-scalar :
    (o : Option Text) → IsSentText o → bounded_text 200 (scalar_text o) ≡ some o
unfolding bounded_text
bounded_text-scalar none h = refl
bounded_text-scalar (some []) h = ground (arith, h.0)
bounded_text-scalar (some (c ∷ s)) h = ground (arith, h.1)

pair_of_filled :
    (c l : Text)
    → is_filled c ≡ true
    → is_filled l ≡ true
    → pair_of_parts (c ∷ l ∷ []) ≡ some record { city_slug = c; locality_slug = l }
pair_of_filled [] l h k = ground (arith, h)
pair_of_filled (c ∷ cs) [] h k = ground (arith, k)
pair_of_filled (c ∷ cs) (l ∷ ls) h k = refl

parse-locality_ref_key :
    (ref : LocalityRefDto) → IsSentRef ref → parse_locality_ref (locality_ref_key ref) ≡ some ref
unfolding parse_locality_ref locality_ref_key
parse-locality_ref_key ref (city, locality) =
    ap pair_of_parts (
      split-append b'/' ref.city_slug ref.locality_slug city.0
      ∙ ap (◌∷◌ ref.city_slug) (split_whole b'/' ref.locality_slug locality.0))
    ∙ pair_of_filled ref.city_slug ref.locality_slug city.1 locality.1

parsed_refs :
    (refs : List LocalityRefDto)
    → All IsSentRef refs
    → keep_some parse_locality_ref (map locality_ref_key refs) ≡ refs
unfolding keep_some
parsed_refs [] h = refl
parsed_refs (r ∷ refs) (h, hs) =
    keep_some-cons parse_locality_ref (locality_ref_key r) r (map locality_ref_key refs)
      (parse-locality_ref_key r h)
    ∙ ap (◌∷◌ r) (parsed_refs refs hs)

filled-append : (c l : Text) → is_filled c ≡ true → is_filled (c ++ l) ≡ true
filled-append [] l h = ground (arith, h)
filled-append (c ∷ cs) l h = refl

keys_filled :
    (refs : List LocalityRefDto)
    → All IsSentRef refs
    → All (λ t. is_filled t ≡ true) (map locality_ref_key refs)
unfolding locality_ref_key
keys_filled [] h = tt
keys_filled (r ∷ refs) (h, hs) = (filled-append r.city_slug _ h.0.1, keys_filled refs hs)

pub reads_status_dto :
    (x : ListingStatusDto) → read_word status_dto_word statuses (status_dto_word x) ≡ some x
unfolding read_word find text_eq
reads_status_dto active = refl
reads_status_dto under_offer = refl
reads_status_dto sold = refl
reads_status_dto rented = refl
reads_status_dto coming_soon = refl

pub filled_status : (x : ListingStatusDto) → is_filled (status_dto_word x) ≡ true
filled_status active = refl
filled_status under_offer = refl
filled_status sold = refl
filled_status rented = refl
filled_status coming_soon = refl

pub reads_transaction :
    (x : TransactionTypeDto) → read_word transaction_word transactions (transaction_word x) ≡ some x
unfolding read_word find text_eq
reads_transaction sale = refl
reads_transaction rent = refl
reads_transaction lease = refl

pub places_sent :
    (refs : List LocalityRefDto)
    → All IsSentRef refs
    → keep_some parse_locality_ref (as_array (map locality_ref_key refs)) ≡ refs
places_sent refs h =
    ap (keep_some parse_locality_ref)
      (as_array-filled (map locality_ref_key refs) (keys_filled refs h))
    ∙ parsed_refs refs h

pub features_sent :
    (ts : List Text)
    → All IsSentFeature ts
    → length ts ≤ 20
    → map (take 60) (take 20 (as_array ts)) ≡ ts
features_sent ts h few =
    ap (λ us. map (take 60) (take 20 us)) (as_array-filled ts (features_filled ts h))
    ∙ ap (map (take 60)) (take-all 20 ts few)
    ∙ short_features ts h
