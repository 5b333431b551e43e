-- ===== src/Web/Tests.antt =====
-- Searches of the site, and the theorems about them there.
use real_estate_webapp.Prelude.{
  ℕ, ◌≤◌, ◌≡◌, refl, Bool, true, false, Option, none, some, List, [], ◌∷◌, arith, any, find, ltb,
  Text, codes, text_eq, is_space, trim_start, trim, none-ne-some,
}
use real_estate_webapp.Catalog.{PropertyRow}
use real_estate_webapp.Catalog.Tests.{deal, catalog}
use real_estate_webapp.Catalog.Vocabulary.{
  PropertyTypeDto, ListingStatusDto, db_to_property_type, db_to_status,
}
use real_estate_webapp.Catalog.Offers.{Joined}
use real_estate_webapp.Catalog.Filters.{
  ListingSearchParams, Point, BoundsDto, price_asc, and_all, filters,
}
use real_estate_webapp.Catalog.Mapper.{ListingDto, area, dto_of, to_listing_dto}
use real_estate_webapp.Catalog.Mapper.Tests.{names, measured, shown}
use real_estate_webapp.Web.{ListingQuery}
use real_estate_webapp.Web.Query.{Numbers, locality_ref_key, parse_search_params, to_search_params}
use real_estate_webapp.Web.Query.RoundTrip.{
  IsReadable, IsShareable, parse_search_params-to_search_params,
}
use real_estate_webapp.Web.Provider.{
  to_listing, to_contract_params, matches, effective, every_listed,
}
use real_estate_webapp.Web.Wire.{SearchResponse, encode, validated, api_search, map_query}
use real_estate_webapp.Web.Wire.Map.{map_empty}
use real_estate_webapp.Web.Wire.Sent.{safe_integer, IsSendable, validated-encode}
use real_estate_webapp.Web.Provider.Agreement.{matches-filters}
use real_estate_webapp.Web.Provider.Closed.{closed_deals_differ}

service : Unit {0}
unfolding any find text_eq is_space trim_start trim locality_ref_key and_all db_to_property_type
    db_to_status area dto_of to_listing_dto matches every_listed
service = tt

-- Numbers that are written as one character.
abbrev read_unit : Text → Option ℕ
read_unit (c ∷ []) = some c
read_unit _ = none

abbrev units : Numbers
units = record {
  Number = ℕ;
  read = read_unit;
  show = λ n. n ∷ [];
  one = 1;
  twenty_four = 24;
  exceeds_one = ltb 1;
}

units-IsReadable : IsReadable units
units-IsReadable = record { reads = λ n. refl; shows = λ n. refl }

abbrev kothis : ListingQuery ℕ
kothis = record {
  q = none;
  city_slugs = some (codes "mohali" ∷ []);
  localities = some (record { city_slug = codes "mohali"; locality_slug = codes "sector-70" } ∷ []);
  status = none;
  min_price = some 5;
  max_price = none;
  min_beds = some 3;
  min_baths = none;
  min_sqft = none;
  max_sqft = none;
  min_year_built = none;
  property_types = some (PropertyTypeDto.plot ∷ PropertyTypeDto.kothi ∷ []);
  possession = none;
  furnishing = none;
  max_maintenance = none;
  features = none;
  sort = some price_asc;
  page = some 2;
  page_size = none;
}

two_not_one : (x : ℕ) → kothis.page ≡ some x → ltb 1 x ≡ false → x ≡ 1
two_not_one x e h = ground (arith, e, h)

kothis-IsShareable : IsShareable units kothis
unfolding service
kothis-IsShareable = record {
  q = λ e. none-ne-some [] e;
  city_slugs = ((refl, refl, refl), tt);
  localities = (((refl, refl), (refl, refl), (refl, refl, refl)), tt);
  status = tt;
  property_types = (tt, (tt, tt));
  possession = tt;
  furnishing = tt;
  features = tt;
  page = two_not_one;
}

parse_search_params-to_search_params_example :
    parse_search_params units (to_search_params units kothis)
    ≡ record kothis { sort = some price_asc; page = some 2; page_size = some 24 }
parse_search_params-to_search_params_example =
    parse_search_params-to_search_params units units-IsReadable kothis kothis-IsShareable

abbrev no_text : Text → Joined → Bool
no_text text j = false

abbrev everywhere : BoundsDto → PropertyRow → Bool
everywhere b p = true

abbrev nowhere : List Point → PropertyRow → Bool
nowhere points p = false

matches-filters_example :
    matches (λ s. s) (to_listing shown) kothis
    ≡ filters no_text everywhere nowhere (to_contract_params kothis) measured
unfolding service
matches-filters_example =
    matches-filters no_text everywhere nowhere (λ s. s) 100 names catalog measured shown kothis
      150000 refl refl refl refl

abbrev closed_row : Joined
closed_row = record measured { listing = deal }

abbrev closed_dto : ListingDto
closed_dto =
    dto_of 100 (names closed_row) catalog closed_row ListingStatusDto.sold PropertyTypeDto.kothi

closed_deals_differ_example :
    (filters no_text everywhere nowhere (to_contract_params kothis) closed_row ≡ true)
    × (matches (λ s. s) (to_listing closed_dto) (effective kothis) ≡ false)
unfolding service
closed_deals_differ_example =
    closed_deals_differ no_text everywhere nowhere (λ s. s) 100 names catalog closed_row closed_dto
      kothis 150000 refl refl refl refl refl refl refl

abbrev wanted : ListingSearchParams
wanted = to_contract_params (record kothis { page_size = some 24 })

wanted-IsSendable : IsSendable wanted
unfolding service to_contract_params
wanted-IsSendable = record {
  q = tt;
  city_slugs = (refl, tt);
  localities = (((refl, refl), (refl, refl)), tt);
  min_price = omega arith;
  max_price = tt;
  min_beds = omega arith;
  min_baths = tt;
  min_sqft = tt;
  max_sqft = tt;
  min_year_built = tt;
  max_maintenance = tt;
  features = tt;
  few_features = omega arith;
  page = omega arith;
  page_size = omega arith;
}

reads_unit : (n : ℕ) → n ≤ safe_integer → read_unit (n ∷ []) ≡ some n
reads_unit n h = refl

validated-encode_example :
    validated read_unit (encode (λ n. n ∷ []) wanted)
    ≡ some (record wanted { polygons = []; bounds = none })
validated-encode_example =
    validated-encode read_unit (λ n. n ∷ []) reads_unit wanted wanted-IsSendable

abbrev one_listing : ListingSearchParams → SearchResponse
one_listing params = record { listings = shown ∷ []; total = 1; page = 1; page_size = 300 }

map_empty_example :
    ((api_search read_unit (λ n. n ∷ []) one_listing (map_query kothis)).listings ≡ [])
    × ((api_search read_unit (λ n. n ∷ []) one_listing (map_query kothis)).total ≡ 0)
map_empty_example = map_empty read_unit (λ n. n ∷ []) reads_unit one_listing kothis
