-- ===== src/Web/Query/RoundTrip.antt =====
-- A search that is written into a URL and read back.
use real_estate_webapp.Prelude.{
  ◌≡◌, ◌∙◌, refl, ap, ◌≢◌, Bool-cases, sym, inl, inr, true, false, Option, none, some, List, [],
  ◌∷◌, map, get_or, arith, All, rows_where, Text, trim, split, join, has_unit, split-join,
  split-append, split_whole, keep_some, keep_some-cons, keep_some-map, read_word,
}
use real_estate_webapp.Catalog.Filters.{
  LocalityRefDto, ListingSort, newest, price_asc, price_desc, beds_desc, area_desc,
}
use real_estate_webapp.Web.{ListingQuery}
use real_estate_webapp.Web.Query.Words.{
  IsPlain, reads_status, reads_property_type, reads_possession, reads_furnishing, reads_sort,
  status_word-IsPlain, property_type_word-IsPlain, possession_word-IsPlain, furnishing_word-IsPlain,
}
use real_estate_webapp.Web.Query.{
  Numbers, status_word, property_type_word, possession_word, furnishing_word, sort_word,
  valid_statuses, valid_property_types, valid_possession, valid_furnishing, valid_sorts, first,
  unless_empty, is_filled, list, filtered, ref_of_parts, decode_locality, decoded,
  decode_localities, locality_ref_key, encode_localities, known, set_list, set_words, set_text,
  set_sort, num, set_number, set_page, parse_search_params, to_search_params,
}

-- A slug stands for itself between slashes too.
abbrev pub IsSlug : Text → Type 0
IsSlug w = (has_unit b'/' w ≡ false) × (is_filled w ≡ true)

abbrev pub IsRef : LocalityRefDto → Type 0
IsRef ref = IsSlug ref.city_slug × IsSlug ref.locality_slug × IsPlain (locality_ref_key ref)

-- A filter that is there has an entry, and its entries can stand in a URL.
abbrev pub IsListed {ℓ} : {A : Type ℓ} → (A → Type 0) → Option (List A) → Type 0
IsListed P none = Unit
IsListed P (some []) = ⊥
IsListed P (some (x ∷ xs)) = All P (x ∷ xs)

abbrev IsPresent {ℓ} : {A : Type ℓ} → Option (List A) → Type 0
IsPresent = IsListed (λ _. Unit)

map-trim : (ws : List Text) → All IsPlain ws → map trim ws ≡ ws
map-trim [] h = refl
map-trim (w ∷ ws) ((_, same, _), h) = rw (same, map-trim ws h) refl

rows_where_filled : (ws : List Text) → All IsPlain ws → rows_where is_filled ws ≡ ws
unfolding rows_where
rows_where_filled [] h = refl
rows_where_filled (w ∷ ws) ((_, _, filled), h) = rw (filled) (ap (◌∷◌ w) (rows_where_filled ws h))

list_of_filled :
    (t : Text)
    → is_filled t ≡ true
    → list (some t) ≡ unless_empty (rows_where is_filled (map trim (split b',' t)))
unfolding list
list_of_filled [] h = ground (arith, h)
list_of_filled (c ∷ s) h = refl

filled_join :
    (w : Text) (ws : List Text) → is_filled w ≡ true → is_filled (join b',' (w ∷ ws)) ≡ true
unfolding join
filled_join [] ws h = ground (arith, h)
filled_join (c ∷ w) [] h = refl
filled_join (c ∷ w) (v ∷ ws) h = refl

has_no_comma : (ws : List Text) → All IsPlain ws → All (λ x. has_unit b',' x ≡ false) ws
has_no_comma [] h = tt
has_no_comma (w ∷ ws) ((h, _, _), hs) = (h, has_no_comma ws hs)

list-join :
    (w : Text) (ws : List Text)
    → All IsPlain (w ∷ ws)
    → list (some (join b',' (w ∷ ws))) ≡ some (w ∷ ws)
list-join w ws h =
    list_of_filled (join b',' (w ∷ ws)) (filled_join w ws h.0.2)
    ∙ ap (λ ts. unless_empty (rows_where is_filled (map trim ts)))
        (split-join b',' w ws (has_no_comma (w ∷ ws) h))
    ∙ ap (λ ts. unless_empty (rows_where is_filled ts)) (map-trim (w ∷ ws) h)
    ∙ ap unless_empty (rows_where_filled (w ∷ ws) h)

map_self {ℓ} : {A : Type ℓ} (xs : List A) → map (λ x. x) xs ≡ xs
map_self [] = refl
map_self (x ∷ xs) = ap (◌∷◌ x) (map_self xs)

list-set_words :
    (o : Option (List Text)) → IsListed IsPlain o → list (first (set_words (λ t. t) o)) ≡ o
unfolding list
list-set_words none h = refl
list-set_words (some []) h = absurd h
list-set_words (some (w ∷ ws)) h =
    ap (λ ts. list (some (join b',' ts))) (map_self (w ∷ ws)) ∙ list-join w ws h

All-map_each {ℓ} :
    {A : Type ℓ} (P : Text → Type 0) (f : A → Text)
    → ((x : A) → P (f x))
    → (xs : List A) → All P (map f xs)
All-map_each P f h [] = tt
All-map_each P f h (x ∷ xs) = (h x, All-map_each P f h xs)

-- The words of an enumeration.
module _ {ℓ} {A : Type ℓ} (word : A → Text) (valid : List A)
    (reads : (x : A) → read_word word valid (word x) ≡ some x)
    (plain : (x : A) → IsPlain (word x)) where
  filtered-set_words :
      (o : Option (List A))
      → IsListed (λ _. Unit) o
      → filtered (read_word word valid) (list (first (set_words word o))) ≡ o
  unfolding list
  filtered-set_words none h = refl
  filtered-set_words (some []) h = absurd h
  filtered-set_words (some (x ∷ xs)) h =
      ap (filtered (read_word word valid))
        (list-join (word x) (map word xs) (All-map_each IsPlain word plain (x ∷ xs)))
      ∙ ap some (keep_some-map (read_word word valid) word reads (x ∷ xs))

ref_of_filled :
    (c l : Text)
    → is_filled c ≡ true
    → is_filled l ≡ true
    → ref_of_parts (c ∷ l ∷ []) ≡ some record { city_slug = c; locality_slug = l }
ref_of_filled [] l h k = ground (arith, h)
ref_of_filled (c ∷ cs) [] h k = ground (arith, k)
ref_of_filled (c ∷ cs) (l ∷ ls) h k = refl

decode_locality_key :
    (ref : LocalityRefDto) → IsRef ref → decode_locality (locality_ref_key ref) ≡ some ref
unfolding decode_locality locality_ref_key
decode_locality_key ref (city, locality, _) =
    ap ref_of_parts (
      split-append b'/' ref.city_slug ref.locality_slug city.0
      ∙ ap (◌∷◌ ref.city_slug) (split_whole b'/' ref.locality_slug locality.0))
    ∙ ref_of_filled ref.city_slug ref.locality_slug city.1 locality.1

keys-IsPlain :
    (refs : List LocalityRefDto) → All IsRef refs → All IsPlain (map locality_ref_key refs)
keys-IsPlain [] h = tt
keys-IsPlain (r ∷ refs) (h, hs) = (h.2, keys-IsPlain refs hs)

decode_keys :
    (refs : List LocalityRefDto)
    → All IsRef refs
    → keep_some decode_locality (map locality_ref_key refs) ≡ refs
unfolding keep_some
decode_keys [] h = refl
decode_keys (r ∷ refs) (h, hs) =
    keep_some-cons decode_locality (locality_ref_key r) r (map locality_ref_key refs)
      (decode_locality_key r h)
    ∙ ap (◌∷◌ r) (decode_keys refs hs)

decode-encode :
    (o : Option (List LocalityRefDto))
    → IsListed IsRef o
    → decode_localities (first (set_list encode_localities o)) ≡ o
unfolding decode_localities list encode_localities
decode-encode none h = refl
decode-encode (some []) h = absurd h
decode-encode (some (r ∷ refs)) h =
    ap decoded
      (list-join (locality_ref_key r) (map locality_ref_key refs) (keys-IsPlain (r ∷ refs) h))
    ∙ ap unless_empty (decode_keys (r ∷ refs) h)

known-set_sort :
    (o : Option ListingSort)
    → known (read_word sort_word valid_sorts) newest (first (set_sort o)) ≡ get_or o newest
known-set_sort none = refl
known-set_sort (some newest) = refl
known-set_sort (some price_asc) = ap (λ o. get_or o newest) (reads_sort price_asc)
known-set_sort (some price_desc) = ap (λ o. get_or o newest) (reads_sort price_desc)
known-set_sort (some beds_desc) = ap (λ o. get_or o newest) (reads_sort beds_desc)
known-set_sort (some area_desc) = ap (λ o. get_or o newest) (reads_sort area_desc)

first-set_text : (o : Option Text) → o ≢ some [] → first (set_text o) ≡ o
first-set_text none h = refl
first-set_text (some []) h = absurd (h refl)
first-set_text (some (c ∷ s)) h = refl

-- What the language guarantees: the text of a finite number is not empty and is read as the number.
pub record IsReadable (js : Numbers) : Type 0 where
  pub reads : (x : js.Number) → js.read (js.show x) ≡ some x
  pub shows : (x : js.Number) → is_filled (js.show x) ≡ true

-- A query whose URL says all of it.
pub record IsShareable (js : Numbers) (query : ListingQuery js.Number) : Type 0 where
  pub q : query.q ≢ some []
  pub city_slugs : IsListed IsPlain query.city_slugs
  pub localities : IsListed IsRef query.localities
  pub status : IsListed (λ _. Unit) query.status
  pub property_types : IsListed (λ _. Unit) query.property_types
  pub possession : IsListed (λ _. Unit) query.possession
  pub furnishing : IsListed (λ _. Unit) query.furnishing
  pub features : IsListed IsPlain query.features
  pub page : (x : js.Number) → query.page ≡ some x → js.exceeds_one x ≡ false → x ≡ js.one

module _ (js : Numbers) (ok : IsReadable js) where
  num_of_filled : (t : Text) → is_filled t ≡ true → num js (some t) ≡ js.read t
  unfolding num
  num_of_filled [] h = ground (arith, h)
  num_of_filled (c ∷ s) h = refl

  num-show : (x : js.Number) → num js (some (js.show x)) ≡ some x
  num-show x = num_of_filled (js.show x) (ok.shows x) ∙ ok.reads x

  num-set_number : (o : Option js.Number) → num js (first (set_number js o)) ≡ o
  unfolding num
  num-set_number none = refl
  num-set_number (some x) = num-show x

  num-set_page :
      (o : Option js.Number)
      → ((x : js.Number) → o ≡ some x → js.exceeds_one x ≡ false → x ≡ js.one)
      → get_or (num js (first (set_page js o))) js.one ≡ get_or o js.one
  unfolding num
  num-set_page none h = refl
  num-set_page (some x) h = elim (Bool-cases (js.exceeds_one x)) [
    | inl on ↦ rw (on) (ap (λ o. get_or o js.one) (num-show x))
    | inr off ↦ rw (off) (sym (h x refl off))
  ]

  -- A search that is shared as a URL is the search that opens, the areas drawn on the map and the box
  -- of the map apart: what `toSearchParams` writes of every other filter, of the order and of the page,
  -- `parseSearchParams` reads as it was, with the defaults for sort, page and page size. The areas are
  -- rounded by the URL and the box is not written, and both are left out here. The filters have entries, their texts hold no comma, no slash in a slug and no white space at an end,
  -- and the page is 1 or more.
  pub parse_search_params-to_search_params :
      (query : ListingQuery js.Number)
      → IsShareable js query
      → parse_search_params js (to_search_params js query) ≡ record query {
        sort = some (get_or query.sort newest);
        page = some (get_or query.page js.one);
        page_size = some js.twenty_four;
      }
  unfolding parse_search_params to_search_params
  parse_search_params-to_search_params query h = λ i. record {
    q = first-set_text query.q h.q i;
    city_slugs = list-set_words query.city_slugs h.city_slugs i;
    localities = decode-encode query.localities h.localities i;
    status =
        filtered-set_words status_word valid_statuses reads_status status_word-IsPlain query.status
          h.status i;
    min_price = num-set_number query.min_price i;
    max_price = num-set_number query.max_price i;
    min_beds = num-set_number query.min_beds i;
    min_baths = num-set_number query.min_baths i;
    min_sqft = num-set_number query.min_sqft i;
    max_sqft = num-set_number query.max_sqft i;
    min_year_built = num-set_number query.min_year_built i;
    property_types =
        filtered-set_words property_type_word valid_property_types reads_property_type
          property_type_word-IsPlain query.property_types h.property_types i;
    possession =
        filtered-set_words possession_word valid_possession reads_possession possession_word-IsPlain
          query.possession h.possession i;
    furnishing =
        filtered-set_words furnishing_word valid_furnishing reads_furnishing furnishing_word-IsPlain
          query.furnishing h.furnishing i;
    max_maintenance = num-set_number query.max_maintenance i;
    features = list-set_words query.features h.features i;
    sort = some (known-set_sort query.sort i);
    page = some (num-set_page query.page h.page i);
    page_size = some js.twenty_four;
  }
