-- ===== src/Web/Provider.antt =====
-- The two providers of listings, apps/web/src/lib/listings/mock-provider.ts and api-provider.ts: the
-- search over the sample data, and what is sent to the API and made of its answers.
--
-- The generated sample data are an argument. Photos are left out. Queries hold natural numbers here.
pub mod Filters
pub mod Ranks
pub mod Areas
pub mod Agreement
pub mod Closed
use real_estate_webapp.Prelude.{
  ℕ, ◌+◌, ◌-◌, ◌*◌, ◌/◌, min, max, Bool, true, false, not, ◌&&◌, ◌||◌, Option, none, some, List, [],
  ◌∷◌, ◌++◌, map, ◌==◌, ltb, leb, if◌then◌else◌, any, find, get_or, or_else, length, rows_where,
  take, drop, sort_by, Text, text_eq, trim, strip_prefix, is_some,
}
use mathlib.Core.Option
use real_estate_webapp.Catalog.{AreaUnit, sq_ft}
use real_estate_webapp.Catalog.Vocabulary.{
  PropertyTypeDto, ListingStatusDto, PossessionDto, FurnishingDto,
}
use real_estate_webapp.Catalog.Filters.{
  LocalityRefDto, ListingSort, newest, price_asc, price_desc, beds_desc, area_desc,
  ListingSearchParams, and_all,
}
use real_estate_webapp.Catalog.Mapper.{AreaDto, AddressDto, ListingDto}
use real_estate_webapp.Web.{
  ListingStatus, active, under_offer, sold, rented, coming_soon, ListingQuery,
}
use real_estate_webapp.Web.Query.{status_word, property_type_word, possession_word, furnishing_word}

pub record StoredArea : Type 0 where
  pub sqft : ℕ
  pub input_value : ℕ
  pub input_unit : AreaUnit
  pub conversion_factor : ℕ

-- The fields that a search looks into, and those that the mapping changes.
pub record Listing : Type 0 where
  pub listing_key : ℕ
  pub reference_code : Text
  pub status : ListingStatus
  pub list_price : ℕ
  pub close_price : Option ℕ
  pub unparsed : Text
  pub city_slug : Text
  pub locality_slug : Text
  pub bedrooms_total : Option ℕ
  pub bathrooms_total : Option ℕ
  pub built_up_area : Option StoredArea
  pub carpet_area : Option StoredArea
  pub plot_area : Option StoredArea
  pub year_built : Option ℕ
  pub possession : PossessionDto
  pub property_type : PropertyTypeDto
  pub furnishing : Option FurnishingDto
  pub maintenance_charges : Option ℕ
  pub public_remarks : Text
  pub features : List Text
  pub days_on_market : ℕ
  pub is_own_listing : Bool

abbrev pub status_from_dto : ListingStatusDto → ListingStatus
status_from_dto ListingStatusDto.active = active
status_from_dto ListingStatusDto.under_offer = under_offer
status_from_dto ListingStatusDto.sold = sold
status_from_dto ListingStatusDto.rented = rented
status_from_dto ListingStatusDto.coming_soon = coming_soon

abbrev pub status_to_dto : ListingStatus → ListingStatusDto
status_to_dto active = ListingStatusDto.active
status_to_dto under_offer = ListingStatusDto.under_offer
status_to_dto sold = ListingStatusDto.sold
status_to_dto rented = ListingStatusDto.rented
status_to_dto coming_soon = ListingStatusDto.coming_soon

abbrev pub to_stored_area : AreaDto → StoredArea
to_stored_area a = record {
  sqft = a.sqft;
  input_value = get_or a.input_value a.sqft;
  input_unit = get_or a.input_unit sq_ft;
  conversion_factor = get_or a.conversion_factor 1;
}

abbrev pub to_listing : ListingDto → Listing
to_listing dto = record {
  listing_key = dto.listing_key;
  reference_code = dto.reference_code;
  status = status_from_dto dto.status;
  list_price = dto.list_price;
  close_price = dto.close_price;
  unparsed = dto.address.unparsed;
  city_slug = dto.city_slug;
  locality_slug = dto.locality_slug;
  bedrooms_total = dto.bedrooms_total;
  bathrooms_total = dto.bathrooms_total;
  built_up_area = Option.map to_stored_area dto.built_up_area;
  carpet_area = Option.map to_stored_area dto.carpet_area;
  plot_area = Option.map to_stored_area dto.plot_area;
  year_built = dto.year_built;
  possession = dto.possession;
  property_type = dto.property_type;
  furnishing = dto.furnishing;
  maintenance_charges = dto.maintenance_charges;
  public_remarks = dto.public_remarks;
  features = dto.features;
  days_on_market = dto.days_on_market;
  is_own_listing = dto.is_own_listing;
}

unfoldable pub to_contract_params : ListingQuery ℕ → ListingSearchParams
to_contract_params query = record {
  q = query.q;
  city_slugs = get_or query.city_slugs [];
  localities = get_or query.localities [];
  status = map status_to_dto (get_or query.status []);
  transaction_type = none;
  min_price = query.min_price;
  max_price = query.max_price;
  min_beds = query.min_beds;
  min_baths = query.min_baths;
  min_sqft = query.min_sqft;
  max_sqft = query.max_sqft;
  min_year_built = query.min_year_built;
  max_maintenance = query.max_maintenance;
  property_types = get_or query.property_types [];
  possession = get_or query.possession [];
  furnishing = get_or query.furnishing [];
  features = get_or query.features [];
  polygons = [];
  bounds = none;
  sort = query.sort;
  page = query.page;
  page_size = query.page_size;
}

-- `carpetArea?.sqft ?? builtUpArea?.sqft ?? plotArea?.sqft ?? 0`
abbrev pub comparable_sqft : Listing → ℕ
comparable_sqft l =
    get_or
      (Option.map (λ (a : StoredArea). a.sqft)
        (or_else l.carpet_area (or_else l.built_up_area l.plot_area)))
      0

-- A filter on a list counts if it is there and has an entry.
abbrev pub among {ℓ} : {A : Type ℓ} → Option (List A) → (A → Bool) → Bool
among none p = true
among (some []) p = true
among (some (x ∷ xs)) p = any p (x ∷ xs)

-- A number that is `undefined` does not pass a bound that is given.
abbrev pub known_from : Option ℕ → Option ℕ → Bool
known_from none value = true
known_from (some bound) none = false
known_from (some bound) (some n) = not (ltb n bound)

abbrev pub from : Option ℕ → ℕ → Bool
from none n = true
from (some bound) n = not (ltb n bound)

abbrev pub up_to : Option ℕ → ℕ → Bool
up_to none n = true
up_to (some bound) n = not (ltb bound n)

unfoldable pub every_listed : (wanted : List Text) → (features : List Text) → Bool
every_listed [] features = true
every_listed (f ∷ fs) features = any (text_eq f) features && every_listed fs features

abbrev pub is_known_among : Option (List FurnishingDto) → Option FurnishingDto → Bool
is_known_among wanted none = among wanted (λ w. false)
is_known_among wanted (some f) = among wanted (λ w. text_eq (furnishing_word w) (furnishing_word f))

-- `haystack.includes(needle)`
unfoldable pub includes : (needle : Text) → Text → Bool
includes needle [] = is_some (strip_prefix needle [])
includes needle (c ∷ s) = is_some (strip_prefix needle (c ∷ s)) || includes needle s

-- `s.replace(/-/g, " ")`
abbrev pub spaced : Text → Text
spaced = map (λ c. if c == b'-' then b' ' else c)

abbrev pub haystack : Listing → Text
haystack l =
    l.unparsed
    ++ b' '
      ∷ (l.reference_code
          ++ b' '
            ∷ (spaced l.locality_slug ++ b' ' ∷ (spaced l.city_slug ++ b' ' ∷ l.public_remarks)))

-- `FOR_SALE_STATUSES`
abbrev pub for_sale_statuses : List ListingStatus
for_sale_statuses = active ∷ under_offer ∷ coming_soon ∷ []

unfoldable pub effective : ListingQuery ℕ → ListingQuery ℕ
effective query = record query { status = some (get_or query.status for_sale_statuses) }

-- The array's sort is stable.
unfoldable pub sort_before : ListingSort → Listing → Listing → Bool
sort_before newest a b = leb a.days_on_market b.days_on_market
sort_before price_asc a b = leb a.list_price b.list_price
sort_before price_desc a b = leb b.list_price a.list_price
sort_before beds_desc a b = leb (get_or b.bedrooms_total 0) (get_or a.bedrooms_total 0)
sort_before area_desc a b = leb (comparable_sqft b) (comparable_sqft a)

pub record ListingResult : Type 0 where
  pub listings : List Listing
  pub total : ℕ
  pub page : ℕ
  pub page_size : ℕ

-- `toLowerCase` is a parameter.
module _ (lower : Text → Text) where
  abbrev pub mentions : Option Text → Listing → Bool
  mentions none l = true
  mentions (some []) l = true
  mentions (some (c ∷ s)) l = includes (trim (lower (c ∷ s))) (lower (haystack l))

  -- The early returns of the code, all of which a listing has to pass.
  unfoldable pub matches : Listing → ListingQuery ℕ → Bool
  matches l q = and_all (
      among q.status (λ s. text_eq (status_word s) (status_word l.status))
      ∷ among q.city_slugs (text_eq l.city_slug)
      ∷ among q.localities (λ (ref : LocalityRefDto).
        text_eq l.city_slug ref.city_slug && text_eq l.locality_slug ref.locality_slug)
      ∷ from q.min_price l.list_price
      ∷ up_to q.max_price l.list_price
      ∷ known_from q.min_beds l.bedrooms_total
      ∷ known_from q.min_baths l.bathrooms_total
      ∷ from q.min_sqft (comparable_sqft l)
      ∷ up_to q.max_sqft (comparable_sqft l)
      ∷ known_from q.min_year_built l.year_built
      ∷ among q.property_types
          (λ x. text_eq (property_type_word x) (property_type_word l.property_type))
      ∷ among q.possession (λ x. text_eq (possession_word x) (possession_word l.possession))
      ∷ is_known_among q.furnishing l.furnishing
      ∷ up_to q.max_maintenance (get_or l.maintenance_charges 0)
      ∷ every_listed (get_or q.features []) l.features
      ∷ mentions q.q l
      ∷ [])

  unfoldable pub mock_search : List Listing → ListingQuery ℕ → ListingResult
  mock_search all query =
      let page = max 1 (get_or query.page 1) in
      let page_size = min 300 (max 1 (get_or query.page_size 24)) in
      let filtered = rows_where (λ l. matches l (effective query)) all in
      let sorted = sort_by (sort_before (get_or query.sort newest)) filtered in
      record {
        listings = take page_size (drop ((page - 1) * page_size) sorted);
        total = length filtered;
        page = page;
        page_size = page_size;
      }
