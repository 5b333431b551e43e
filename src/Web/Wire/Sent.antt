-- ===== src/Web/Wire/Sent.antt =====
-- What the site sends is what the API searches for.
use real_estate_webapp.Prelude.{
  ℕ, ◌≤◌, ◌≡◌, ◌∙◌, refl, ap, true, Option, none, some, [], arith, All, length, Text,
}
use real_estate_webapp.Catalog.Filters.{ListingSearchParams}
use real_estate_webapp.Web.Query.{
  property_type_word, possession_word, furnishing_word, sort_word, valid_property_types,
  valid_possession, valid_furnishing, valid_sorts, is_filled,
}
use real_estate_webapp.Web.Query.Words.{
  reads_property_type, reads_possession, reads_furnishing, reads_sort, property_type_word-IsPlain,
  possession_word-IsPlain, furnishing_word-IsPlain,
}
use real_estate_webapp.Web.Wire.{
  status_dto_word, transaction_word, statuses, transactions, scalar, billion_100, encode,
  read_in_range, number_field, validated,
}
use real_estate_webapp.Web.Wire.Fields.{
  IsSentText, IsSentRef, IsSentFeature, as_array-filled, kept_words, is_in-scalar,
  bounded_text-scalar, reads_status_dto, filled_status, reads_transaction, places_sent,
  features_sent,
}

-- The whole numbers that JavaScript writes and reads exactly.
abbrev pub safe_integer : ℕ
safe_integer = 9007199254740991

abbrev pub IsWithin : (least most : ℕ) → Option ℕ → Type 0
IsWithin least most none = Unit
IsWithin least most (some n) = (least ≤ n) × (n ≤ most)

-- A search within the limits of the API.
pub record IsSendable (params : ListingSearchParams) : Type 0 where
  pub q : IsSentText params.q
  pub city_slugs : All (λ t. is_filled t ≡ true) params.city_slugs
  pub localities : All IsSentRef params.localities
  pub min_price : IsWithin 0 billion_100 params.min_price
  pub max_price : IsWithin 0 billion_100 params.max_price
  pub min_beds : IsWithin 0 20 params.min_beds
  pub min_baths : IsWithin 0 20 params.min_baths
  pub min_sqft : IsWithin 0 10000000 params.min_sqft
  pub max_sqft : IsWithin 0 10000000 params.max_sqft
  pub min_year_built : IsWithin 1900 2100 params.min_year_built
  pub max_maintenance : IsWithin 0 safe_integer params.max_maintenance
  pub features : All IsSentFeature params.features
  pub few_features : length params.features ≤ 20
  pub page : IsWithin 1 500 params.page
  pub page_size : IsWithin 1 100 params.page_size

module _ (read : Text → Option ℕ) (show : ℕ → Text)
    (reads : (n : ℕ) → n ≤ safe_integer → read (show n) ≡ some n) where
  number_field-scalar :
      (least most : ℕ) (o : Option ℕ)
      → most ≤ safe_integer
      → IsWithin least most o
      → number_field read least (some most) (scalar show o) ≡ some o
  unfolding number_field
  number_field-scalar least most none small h = refl
  number_field-scalar least most (some n) small (low, high) =
      ap (read_in_range read least (some most)) (reads n (omega (arith, high, small)))
      ∙ ground (arith, low, high)

  open_field-scalar :
      (o : Option ℕ) → IsWithin 0 safe_integer o → number_field read 0 none (scalar show o) ≡ some o
  unfolding number_field
  open_field-scalar none h = refl
  open_field-scalar (some n) (low, high) =
      ap (read_in_range read 0 none) (reads n high) ∙ ground (arith, low)

  -- What the site sends is what the API searches for: the API reads every filter, the order and the
  -- page of a query string that `toSearchParams` wrote as they were, where they keep its limits, and
  -- answers no such request with an error. The areas drawn on the map are left out.
  pub validated-encode :
      (params : ListingSearchParams)
      → IsSendable params
      → validated read (encode show params) ≡ some (record params { polygons = []; bounds = none })
  unfolding validated encode
  validated-encode params h =
      let q = bounded_text-scalar params.q h.q in
      let transaction =
        is_in-scalar transaction_word transactions reads_transaction params.transaction_type in
      let number = λ (least most : ℕ) (o : Option ℕ). number_field-scalar least most o in
      let min_price = number 0 billion_100 params.min_price (omega arith) h.min_price in
      let max_price = number 0 billion_100 params.max_price (omega arith) h.max_price in
      let min_beds = number 0 20 params.min_beds (omega arith) h.min_beds in
      let min_baths = number 0 20 params.min_baths (omega arith) h.min_baths in
      let min_sqft = number 0 10000000 params.min_sqft (omega arith) h.min_sqft in
      let max_sqft = number 0 10000000 params.max_sqft (omega arith) h.max_sqft in
      let year = number 1900 2100 params.min_year_built (omega arith) h.min_year_built in
      let upkeep = open_field-scalar params.max_maintenance h.max_maintenance in
      let sort = is_in-scalar sort_word valid_sorts reads_sort params.sort in
      let page = number 1 500 params.page (omega arith) h.page in
      let page_size = number 1 100 params.page_size (omega arith) h.page_size in
      let cities = as_array-filled params.city_slugs h.city_slugs in
      let places = places_sent params.localities h.localities in
      let status =
        kept_words status_dto_word statuses reads_status_dto filled_status params.status in
      let kinds =
        kept_words property_type_word valid_property_types reads_property_type
          (λ x. (property_type_word-IsPlain x).2) params.property_types in
      let possession =
        kept_words possession_word valid_possession reads_possession
          (λ x. (possession_word-IsPlain x).2) params.possession in
      let furnishing =
        kept_words furnishing_word valid_furnishing reads_furnishing
          (λ x. (furnishing_word-IsPlain x).2) params.furnishing in
      let features = features_sent params.features h.features h.few_features in
      rw
        (
          q, transaction, min_price, max_price, min_beds, min_baths, min_sqft, max_sqft, year,
          upkeep, sort, page, page_size,
        )
        (λ i. some record {
          q = params.q;
          city_slugs = cities i;
          localities = places i;
          status = status i;
          transaction_type = params.transaction_type;
          min_price = params.min_price;
          max_price = params.max_price;
          min_beds = params.min_beds;
          min_baths = params.min_baths;
          min_sqft = params.min_sqft;
          max_sqft = params.max_sqft;
          min_year_built = params.min_year_built;
          max_maintenance = params.max_maintenance;
          property_types = kinds i;
          possession = possession i;
          furnishing = furnishing i;
          features = features i;
          polygons = [];
          bounds = none;
          sort = params.sort;
          page = params.page;
          page_size = params.page_size;
        })
