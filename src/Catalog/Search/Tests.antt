-- ===== src/Catalog/Search/Tests.antt =====
-- Searches over a small market, and the theorems about them there.
use real_estate_webapp.Prelude.{
  ◌≡◌, refl, true, false, Bool, none, some, List, [], ◌∷◌, arith, All, any, find, text_eq, Permᴰ,
  rows_where, take, drop, insert_by, sort_by, Text,
}
use real_estate_webapp.Catalog.{PropertyRow, ListingRow, Tables}
use real_estate_webapp.Catalog.Tests.{sector_70, kothi_12, offer, rival, catalog}
use real_estate_webapp.Catalog.Rera.{is_for, find_valid}
use real_estate_webapp.Catalog.Offers.{Joined, joined}
use real_estate_webapp.Catalog.Filters.{
  Point, BoundsDto, ListingSort, ListingSearchParams, and_all, has_features, public_scope, filters,
}
use real_estate_webapp.Catalog.Search.{
  order_by, visible_rows, matches, ranking, search, service_search, shown_registration,
}
use real_estate_webapp.Catalog.Search.Order.{ranking_unique}
use real_estate_webapp.Catalog.Search.Pages.{first_pages, pages_cover}
use real_estate_webapp.Catalog.Search.Scope.{IsAdvertised, search-IsAdvertised}

service : Unit {0}
unfolding joined find any text_eq rows_where take drop insert_by sort_by and_all has_features
    public_scope filters order_by visible_rows matches ranking search service_search
    shown_registration first_pages is_for find_valid
service = tt

abbrev cheap : ListingRow
cheap = record rival { id = 3; price = 700 }

abbrev pub market : Tables
market = record catalog { listings = rival ∷ offer ∷ cheap ∷ [] }

abbrev row : ListingRow → Joined
row l = record {
  listing = l;
  property = record { id = 4; columns = kothi_12 };
  locality = sector_70;
}

abbrev pub cheapest : ListingSearchParams
cheapest = record {
  q = none;
  city_slugs = [];
  localities = [];
  status = [];
  transaction_type = none;
  min_price = none;
  max_price = none;
  min_beds = some 2;
  min_baths = none;
  min_sqft = none;
  max_sqft = none;
  min_year_built = none;
  max_maintenance = none;
  property_types = [];
  possession = [];
  furnishing = [];
  features = [];
  polygons = [];
  bounds = none;
  sort = some ListingSort.price_asc;
  page = none;
  page_size = some 1;
}

abbrev no_text : Text → Joined → Bool
no_text text j = false

abbrev everywhere : BoundsDto → PropertyRow → Bool
everywhere b p = true

abbrev nowhere : List Point → PropertyRow → Bool
nowhere points p = false

ranking_unique_example :
    ranking no_text everywhere nowhere cheapest market ≡ row cheap ∷ row rival ∷ []
unfolding service
ranking_unique_example =
    ranking_unique no_text everywhere nowhere cheapest market (row cheap ∷ row rival ∷ [])
      (refl, (refl, (refl, tt))) (Permᴰ.swap refl refl) ((refl, tt), (tt, tt))

pages_cover_example :
    first_pages no_text everywhere nowhere 2 cheapest market
    ≡ ranking no_text everywhere nowhere cheapest market
unfolding service
pages_cover_example = pages_cover no_text everywhere nowhere 2 cheapest market (omega arith)

search-IsAdvertised_example :
    All
      (λ (j : Joined). IsAdvertised market j.listing)
      (search no_text everywhere nowhere cheapest market).rows
search-IsAdvertised_example = search-IsAdvertised no_text everywhere nowhere cheapest market

abbrev host_row : Joined
host_row = row offer
