-- ===== src/Web/Query.antt =====
-- apps/web/src/lib/listings/query-params.ts: a search as the parameters of a URL, and back.
--
-- A parameter has the list of its values, of which the first counts; none stands for `undefined`. Left
-- out are `poly`, the areas drawn on the map in decimal fractions, and with it `encodePolygons` and
-- `decodePolygons`. A query also has the box of the map, which no parameter carries.

pub mod Words
pub mod RoundTrip
use real_estate_webapp.Prelude.{
  ℕ, ◌≡◌, Bool, true, false, not, Option, none, some, List, [], ◌∷◌, ◌++◌, map, get_or, Text, codes,
  text_eq, trim, split, join, keep_some, read_word, find, rows_where, truthy, if◌then◌else◌,
}
use real_estate_webapp.Catalog.Vocabulary.{PropertyTypeDto, PossessionDto, FurnishingDto}
use real_estate_webapp.Catalog.Filters.{
  LocalityRefDto, ListingSort, newest, price_asc, price_desc, beds_desc, area_desc,
}
use real_estate_webapp.Web.{
  ListingStatus, active, under_offer, sold, rented, coming_soon, ListingQuery,
}

-- The finite numbers of JavaScript as far as the code looks into them: `Number(text)` where it is
-- finite, `String(number)`, the numbers 1 and 24, and the test `> 1`.
pub record Numbers : Type 1 where
  pub Number : Type 0
  pub read : Text → Option Number
  pub show : Number → Text
  pub one : Number
  pub twenty_four : Number
  pub exceeds_one : Number → Bool

pub record RawSearchParams : Type 0 where
  pub q : List Text
  pub city : List Text
  pub area : List Text
  pub status : List Text
  pub min_price : List Text
  pub max_price : List Text
  pub beds : List Text
  pub baths : List Text
  pub min_sqft : List Text
  pub max_sqft : List Text
  pub min_year : List Text
  pub type : List Text
  pub possession : List Text
  pub furnishing : List Text
  pub max_maint : List Text
  pub features : List Text
  pub sort : List Text
  pub page : List Text

abbrev pub status_word : ListingStatus → Text
status_word active = codes "Active"
status_word under_offer = codes "Under Offer"
status_word sold = codes "Sold"
status_word rented = codes "Rented"
status_word coming_soon = codes "Coming Soon"

abbrev pub property_type_word : PropertyTypeDto → Text
property_type_word PropertyTypeDto.plot = codes "plot"
property_type_word PropertyTypeDto.kothi = codes "kothi"
property_type_word PropertyTypeDto.builder_floor = codes "builder-floor"
property_type_word PropertyTypeDto.flat = codes "flat"
property_type_word PropertyTypeDto.villa = codes "villa"
property_type_word PropertyTypeDto.sco = codes "sco"
property_type_word PropertyTypeDto.scf = codes "scf"
property_type_word PropertyTypeDto.booth = codes "booth"
property_type_word PropertyTypeDto.farmhouse = codes "farmhouse"

abbrev pub possession_word : PossessionDto → Text
possession_word PossessionDto.ready_to_move = codes "ready-to-move"
possession_word PossessionDto.under_construction = codes "under-construction"
possession_word PossessionDto.new_launch = codes "new-launch"

abbrev pub furnishing_word : FurnishingDto → Text
furnishing_word FurnishingDto.unfurnished = codes "unfurnished"
furnishing_word FurnishingDto.semi_furnished = codes "semi-furnished"
furnishing_word FurnishingDto.fully_furnished = codes "fully-furnished"

abbrev pub sort_word : ListingSort → Text
sort_word newest = codes "newest"
sort_word price_asc = codes "price-asc"
sort_word price_desc = codes "price-desc"
sort_word beds_desc = codes "beds-desc"
sort_word area_desc = codes "area-desc"

abbrev pub valid_statuses : List ListingStatus
valid_statuses = active ∷ under_offer ∷ sold ∷ rented ∷ coming_soon ∷ []

abbrev pub valid_property_types : List PropertyTypeDto
valid_property_types =
    PropertyTypeDto.plot ∷ PropertyTypeDto.kothi ∷ PropertyTypeDto.builder_floor
    ∷ PropertyTypeDto.flat ∷ PropertyTypeDto.villa ∷ PropertyTypeDto.sco ∷ PropertyTypeDto.scf
    ∷ PropertyTypeDto.booth ∷ PropertyTypeDto.farmhouse ∷ []

abbrev pub valid_possession : List PossessionDto
valid_possession =
    PossessionDto.ready_to_move ∷ PossessionDto.under_construction ∷ PossessionDto.new_launch ∷ []

abbrev pub valid_furnishing : List FurnishingDto
valid_furnishing =
    FurnishingDto.unfurnished ∷ FurnishingDto.semi_furnished ∷ FurnishingDto.fully_furnished ∷ []

abbrev pub valid_sorts : List ListingSort
valid_sorts = newest ∷ price_asc ∷ price_desc ∷ beds_desc ∷ area_desc ∷ []

abbrev pub first : List Text → Option Text
first [] = none
first (v ∷ vs) = some v

-- `items.length > 0 ? items : undefined`
abbrev pub unless_empty {ℓ} : {A : Type ℓ} → List A → Option (List A)
unless_empty [] = none
unless_empty (x ∷ xs) = some (x ∷ xs)

abbrev pub is_filled : Text → Bool
is_filled [] = false
is_filled (c ∷ s) = true

unfoldable pub list : Option Text → Option (List Text)
list none = none
list (some []) = none
list (some (c ∷ s)) = unless_empty (rows_where is_filled (map trim (split b',' (c ∷ s))))

abbrev pub filtered {ℓ} : {A : Type ℓ} → (Text → Option A) → Option (List Text) → Option (List A)
filtered f none = none
filtered f (some ts) = some (keep_some f ts)

-- `[citySlug, localitySlug] = item.split("/")`
abbrev pub ref_of_parts : List Text → Option LocalityRefDto
ref_of_parts ((c ∷ cs) ∷ (l ∷ ls) ∷ rest) =
    some record { city_slug = c ∷ cs; locality_slug = l ∷ ls }
ref_of_parts _ = none

unfoldable pub decode_locality : Text → Option LocalityRefDto
decode_locality item = ref_of_parts (split b'/' item)

abbrev pub decoded : Option (List Text) → Option (List LocalityRefDto)
decoded none = none
decoded (some items) = unless_empty (keep_some decode_locality items)

unfoldable pub decode_localities : Option Text → Option (List LocalityRefDto)
decode_localities value = decoded (list value)

unfoldable pub locality_ref_key : LocalityRefDto → Text
locality_ref_key ref = ref.city_slug ++ b'/' ∷ ref.locality_slug

unfoldable pub encode_localities : List LocalityRefDto → Text
encode_localities refs = join b',' (map locality_ref_key refs)

abbrev pub known {ℓ} : {A : Type ℓ} → (Text → Option A) → A → Option Text → A
known f x none = x
known f x (some t) = get_or (f t) x

-- `params.set(key, …)` under `if (xs?.length)`.
abbrev pub set_list {ℓ} : {A : Type ℓ} → (List A → Text) → Option (List A) → List Text
set_list f none = []
set_list f (some []) = []
set_list f (some (x ∷ xs)) = f (x ∷ xs) ∷ []

abbrev pub set_words {ℓ} : {A : Type ℓ} → (A → Text) → Option (List A) → List Text
set_words word = set_list (λ xs. join b',' (map word xs))

abbrev pub set_text : Option Text → List Text
set_text none = []
set_text (some []) = []
set_text (some (c ∷ s)) = (c ∷ s) ∷ []

-- "newest" is the default.
abbrev pub set_sort : Option ListingSort → List Text
set_sort none = []
set_sort (some newest) = []
set_sort (some s) = sort_word s ∷ []

module _ (js : Numbers) where
  unfoldable pub num : Option Text → Option js.Number
  num none = none
  num (some []) = none
  num (some (c ∷ s)) = js.read (c ∷ s)

  abbrev pub set_number : Option js.Number → List Text
  set_number none = []
  set_number (some x) = js.show x ∷ []

  abbrev pub set_page : Option js.Number → List Text
  set_page none = []
  set_page (some x) = if js.exceeds_one x then js.show x ∷ [] else []

  unfoldable pub parse_search_params : RawSearchParams → ListingQuery js.Number
  parse_search_params params = record {
    q = first params.q;
    city_slugs = list (first params.city);
    localities = decode_localities (first params.area);
    status = filtered (read_word status_word valid_statuses) (list (first params.status));
    min_price = num (first params.min_price);
    max_price = num (first params.max_price);
    min_beds = num (first params.beds);
    min_baths = num (first params.baths);
    min_sqft = num (first params.min_sqft);
    max_sqft = num (first params.max_sqft);
    min_year_built = num (first params.min_year);
    property_types =
        filtered (read_word property_type_word valid_property_types) (list (first params.type));
    possession =
        filtered (read_word possession_word valid_possession) (list (first params.possession));
    furnishing =
        filtered (read_word furnishing_word valid_furnishing) (list (first params.furnishing));
    max_maintenance = num (first params.max_maint);
    features = list (first params.features);
    sort = some (known (read_word sort_word valid_sorts) newest (first params.sort));
    page = some (get_or (num (first params.page)) js.one);
    page_size = some js.twenty_four;
  }

  unfoldable pub to_search_params : ListingQuery js.Number → RawSearchParams
  to_search_params query = record {
    q = set_text query.q;
    city = set_words (λ t. t) query.city_slugs;
    area = set_list encode_localities query.localities;
    status = set_words status_word query.status;
    min_price = set_number query.min_price;
    max_price = set_number query.max_price;
    beds = set_number query.min_beds;
    baths = set_number query.min_baths;
    min_sqft = set_number query.min_sqft;
    max_sqft = set_number query.max_sqft;
    min_year = set_number query.min_year_built;
    type = set_words property_type_word query.property_types;
    possession = set_words possession_word query.possession;
    furnishing = set_words furnishing_word query.furnishing;
    max_maint = set_number query.max_maintenance;
    features = set_words (λ t. t) query.features;
    sort = set_sort query.sort;
    page = set_page query.page;
  }
