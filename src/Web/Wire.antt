-- ===== src/Web/Wire.antt =====
-- A search on its way from the site to the API: `toSearchParams` of packages/contracts/src/catalog.ts,
-- and apps/api/src/catalog/dto/search-listings.dto.ts with utils/locality-ref.ts.
--
-- A key of the query string has the list of its values. Left out are the two keys that carry JSON,
-- polygons and bounds. `read` is the natural number that `Number` makes of a text; a fraction, which
-- the code takes for an amount, counts as no number here.
pub mod Fields
pub mod Sent
pub mod Map
use real_estate_webapp.Prelude.{
  ℕ, Bool, true, false, ◌&&◌, Option, none, some, List, [], ◌∷◌, ◌++◌, map, get_or, leb,
  if◌then◌else◌, find, length, take, Text, codes, text_eq, split, keep_some, read_word,
}
use real_estate_webapp.Catalog.Vocabulary.{
  ListingStatusDto, active, under_offer, sold, rented, coming_soon, TransactionTypeDto, sale, rent,
  lease,
}
use real_estate_webapp.Catalog.Filters.{LocalityRefDto, ListingSort, ListingSearchParams}
use real_estate_webapp.Catalog.Mapper.{ListingDto}
use real_estate_webapp.Web.{ListingQuery}
use real_estate_webapp.Web.Provider.{ListingResult, to_listing, to_contract_params}
use real_estate_webapp.Web.Query.{
  property_type_word, possession_word, furnishing_word, sort_word, valid_property_types,
  valid_possession, valid_furnishing, valid_sorts, locality_ref_key,
}

pub record SearchQuery : Type 0 where
  pub q : List Text
  pub city_slugs : List Text
  pub area : List Text
  pub status : List Text
  pub transaction_type : List Text
  pub min_price : List Text
  pub max_price : List Text
  pub min_beds : List Text
  pub min_baths : List Text
  pub min_sqft : List Text
  pub max_sqft : List Text
  pub min_year_built : List Text
  pub property_types : List Text
  pub possession : List Text
  pub furnishing : List Text
  pub max_maintenance : List Text
  pub features : List Text
  pub sort : List Text
  pub page : List Text
  pub page_size : List Text

abbrev pub status_dto_word : ListingStatusDto → Text
status_dto_word active = codes "active"
status_dto_word under_offer = codes "under-offer"
status_dto_word sold = codes "sold"
status_dto_word rented = codes "rented"
status_dto_word coming_soon = codes "coming-soon"

abbrev pub transaction_word : TransactionTypeDto → Text
transaction_word sale = codes "sale"
transaction_word rent = codes "rent"
transaction_word lease = codes "lease"

abbrev pub statuses : List ListingStatusDto
statuses = active ∷ under_offer ∷ sold ∷ rented ∷ coming_soon ∷ []

abbrev pub transactions : List TransactionTypeDto
transactions = sale ∷ rent ∷ lease ∷ []

-- `scalar` of a text: `undefined` and the empty text are not sent.
abbrev pub scalar_text : Option Text → List Text
scalar_text none = []
scalar_text (some []) = []
scalar_text (some (c ∷ s)) = (c ∷ s) ∷ []

abbrev pub scalar {ℓ} : {A : Type ℓ} → (A → Text) → Option A → List Text
scalar show none = []
scalar show (some x) = show x ∷ []

abbrev pub refused_if_none {ℓ} : {A : Type ℓ} → Option A → Option (Option A)
refused_if_none none = none
refused_if_none (some x) = some (some x)

-- `@IsOptional() @IsIn(…)`: a value outside of the list, or a second value, is refused.
unfoldable pub is_in {ℓ} : {A : Type ℓ} → (Text → Option A) → List Text → Option (Option A)
is_in f [] = some none
is_in f (v ∷ []) = refused_if_none (f v)
is_in f (v ∷ w ∷ vs) = none

-- `@IsOptional() @IsString() @MaxLength(200)`
unfoldable pub bounded_text : (max_length : ℕ) → List Text → Option (Option Text)
bounded_text n [] = some none
bounded_text n (v ∷ []) = if leb (length v) n then some (some v) else none
bounded_text n (v ∷ w ∷ vs) = none

-- `asArray`, with no entry for `undefined`.
unfoldable pub as_array : List Text → List Text
as_array ([] ∷ []) = []
as_array vs = vs

-- `[citySlug, localitySlug, ...rest] = raw.split("/")`
abbrev pub pair_of_parts : List Text → Option LocalityRefDto
pair_of_parts ((c ∷ cs) ∷ (l ∷ ls) ∷ []) =
    some record { city_slug = c ∷ cs; locality_slug = l ∷ ls }
pair_of_parts _ = none

unfoldable pub parse_locality_ref : Text → Option LocalityRefDto
parse_locality_ref raw = pair_of_parts (split b'/' raw)

abbrev pub billion_100 : ℕ
billion_100 = 100000000000

infixl 5 ◌>>=◌ ◌>>◌
abbrev pub ◌>>=◌ {ℓ κ} : {A : Type ℓ} {B : Type κ} → Option A → (A → Option B) → Option B
none >>= f = none
some a >>= f = f a

abbrev pub ◌>>◌ {ℓ κ} : {A : Type ℓ} {B : Type κ} → Option A → Option B → Option B
m >> k = m >>= λ _. k

unfoldable pub encode : (show : ℕ → Text) → ListingSearchParams → SearchQuery
encode show params = record {
  q = scalar_text params.q;
  city_slugs = params.city_slugs;
  area = map locality_ref_key params.localities;
  status = map status_dto_word params.status;
  transaction_type = scalar transaction_word params.transaction_type;
  min_price = scalar show params.min_price;
  max_price = scalar show params.max_price;
  min_beds = scalar show params.min_beds;
  min_baths = scalar show params.min_baths;
  min_sqft = scalar show params.min_sqft;
  max_sqft = scalar show params.max_sqft;
  min_year_built = scalar show params.min_year_built;
  property_types = map property_type_word params.property_types;
  possession = map possession_word params.possession;
  furnishing = map furnishing_word params.furnishing;
  max_maintenance = scalar show params.max_maintenance;
  features = params.features;
  sort = scalar sort_word params.sort;
  page = scalar show params.page;
  page_size = scalar show params.page_size;
}

module _ (read : Text → Option ℕ) where
  abbrev pub in_range : (least : ℕ) → (most : Option ℕ) → ℕ → Option (Option ℕ)
  in_range least none n = if leb least n then some (some n) else none
  in_range least (some most) n = if leb least n && leb n most then some (some n) else none

  abbrev pub read_in_range : (least : ℕ) → (most : Option ℕ) → Option ℕ → Option (Option ℕ)
  read_in_range least most none = none
  read_in_range least most (some n) = in_range least most n

  -- `@Type(() => Number) @IsInt() @Min(…) @Max(…)`
  unfoldable pub number_field : (least : ℕ) → (most : Option ℕ) → List Text → Option (Option ℕ)
  number_field least most [] = some none
  number_field least most (v ∷ []) = read_in_range least most (read v)
  number_field least most (v ∷ w ∷ vs) = none

  -- The validation and `toParams`. `none` is the answer 400.
  unfoldable pub validated : SearchQuery → Option ListingSearchParams
  validated query = do
    page_size ← number_field 1 (some 100) query.page_size
    q ← bounded_text 200 query.q
    transaction_type ← is_in (read_word transaction_word transactions) query.transaction_type
    min_price ← number_field 0 (some billion_100) query.min_price
    max_price ← number_field 0 (some billion_100) query.max_price
    min_beds ← number_field 0 (some 20) query.min_beds
    min_baths ← number_field 0 (some 20) query.min_baths
    min_sqft ← number_field 0 (some 10000000) query.min_sqft
    max_sqft ← number_field 0 (some 10000000) query.max_sqft
    min_year_built ← number_field 1900 (some 2100) query.min_year_built
    max_maintenance ← number_field 0 none query.max_maintenance
    sort ← is_in (read_word sort_word valid_sorts) query.sort
    page ← number_field 1 (some 500) query.page
    some record {
      q = q;
      city_slugs = as_array query.city_slugs;
      localities = keep_some parse_locality_ref (as_array query.area);
      status = keep_some (read_word status_dto_word statuses) (as_array query.status);
      transaction_type = transaction_type;
      min_price = min_price;
      max_price = max_price;
      min_beds = min_beds;
      min_baths = min_baths;
      min_sqft = min_sqft;
      max_sqft = max_sqft;
      min_year_built = min_year_built;
      max_maintenance = max_maintenance;
      property_types =
          keep_some (read_word property_type_word valid_property_types)
            (as_array query.property_types);
      possession =
          keep_some (read_word possession_word valid_possession) (as_array query.possession);
      furnishing =
          keep_some (read_word furnishing_word valid_furnishing) (as_array query.furnishing);
      features = map (take 60) (take 20 (as_array query.features));
      polygons = [];
      bounds = none;
      sort = sort;
      page = page;
      page_size = page_size;
    }

pub record SearchResponse : Type 0 where
  pub listings : List ListingDto
  pub total : ℕ
  pub page : ℕ
  pub page_size : ℕ

-- `ApiProvider.search` once its request is answered; `none` is a request that failed.
unfoldable pub search_answered : Option SearchResponse → ListingQuery ℕ → ListingResult
search_answered none query = record {
  listings = [];
  total = 0;
  page = get_or query.page 1;
  page_size = get_or query.page_size 24;
}
search_answered (some r) query = record {
  listings = map to_listing r.listings;
  total = r.total;
  page = r.page;
  page_size = r.page_size;
}

-- A search of the site through the API, whose service is an argument.
unfoldable pub api_search :
    (read : Text → Option ℕ)
    → (show : ℕ → Text) → (service : ListingSearchParams → SearchResponse) → ListingQuery ℕ
    → ListingResult
api_search read show service query =
    search_answered
      (validated read (encode show (to_contract_params query)) >>= λ params. some (service params))
      query

-- The second search of the page app/search/page.tsx, for the map.
abbrev pub map_query : ListingQuery ℕ → ListingQuery ℕ
map_query query = record query { page = some 1; page_size = some 300 }
