-- ===== src/Catalog/Search.antt =====
-- The reads of apps/api/src/catalog/repositories/listing.repository.ts as an anonymous visitor makes
-- them, with `orderBy` of utils/sql-filters.ts, and the clamping of services/catalog.service.ts.
--
-- A search answers the rows of its page and a total.
pub mod Order
pub mod Pages
pub mod Scope
pub mod Tests
use real_estate_webapp.Prelude.{
  ℕ, suc, ◌-◌, ◌*◌, min, max, Bool, true, false, ◌&&◌, ◌||◌, Option, none, some, List, [], ◌∷◌,
  ◌==◌, ltb, leb, any, not, if◌then◌else◌, get_or, or_else, find, length, rows_where, take, drop,
  sort_by, Text, text_eq,
}
use real_estate_webapp.Catalog.{PropertyRow, ListingRow, ReraRow, Tables, is_open, is_closed}
use real_estate_webapp.Catalog.Rera.{is_for}
use real_estate_webapp.Catalog.Offers.{Joined, joined, keep_joined}
use real_estate_webapp.Catalog.Filters.{
  LocalityRefDto, Point, BoundsDto, ListingSort, newest, price_asc, price_desc, beds_desc,
  area_desc, ListingSearchParams, comparable_area, public_scope, filters,
}

-- `coalesce(published_at, created_at)`
abbrev pub listed_at : ListingRow → ℕ
listed_at l = get_or l.published_at l.created_at

-- A null sorts behind every number in an order that descends.
abbrev pub nulls_last : Option ℕ → ℕ
nulls_last none = 0
nulls_last (some n) = suc n

abbrev pub id_of : Joined → ℕ
id_of j = j.listing.id

-- `ORDER BY column ASC, id ASC` and `ORDER BY column DESC, id ASC`
abbrev pub ascending : (Joined → ℕ) → Joined → Joined → Bool
ascending column a b =
    ltb (column a) (column b) || (column a == column b && leb (id_of a) (id_of b))

abbrev pub descending : (Joined → ℕ) → Joined → Joined → Bool
descending column a b =
    ltb (column b) (column a) || (column a == column b && leb (id_of a) (id_of b))

unfoldable pub order_by : ListingSort → Joined → Joined → Bool
order_by newest = descending (λ j. listed_at j.listing)
order_by price_asc = ascending (λ j. j.listing.price)
order_by price_desc = descending (λ j. j.listing.price)
order_by beds_desc = descending (λ j. nulls_last j.property.columns.bedrooms)
order_by area_desc = descending (λ j. nulls_last (comparable_area j.property))

-- The rows that a visitor's query runs over: what the policy shows, joined.
unfoldable pub visible_rows : Tables → List ListingRow → List Joined
visible_rows t [] = []
visible_rows t (l ∷ ls) =
    if is_open t l then keep_joined (joined t l) (visible_rows t ls) else visible_rows t ls

pub record SearchResult : Type 0 where
  pub rows : List Joined
  pub total : ℕ

-- `count(*) OVER ()` rides on the rows of the page.
abbrev pub total_of : (page matches : List Joined) → ℕ
total_of [] matches = 0
total_of (j ∷ js) matches = length matches

-- `Math.max(1, page ?? 1)` and `Math.min(100, Math.max(1, pageSize ?? 24))`
abbrev pub page_of : ListingSearchParams → ℕ
page_of params = max 1 (get_or params.page 1)

abbrev pub page_size_of : ListingSearchParams → ℕ
page_size_of params = min 100 (max 1 (get_or params.page_size 24))

module _ (matches_text : Text → Joined → Bool) (in_bounds : BoundsDto → PropertyRow → Bool)
    (in_polygon : List Point → PropertyRow → Bool) where
  unfoldable pub matches : ListingSearchParams → Tables → List Joined
  matches params t =
      rows_where (λ j. public_scope j && filters matches_text in_bounds in_polygon params j)
        (visible_rows t t.listings)

  -- All the matches, in the order that the request asks for.
  unfoldable pub ranking : ListingSearchParams → Tables → List Joined
  ranking params t = sort_by (order_by (get_or params.sort newest)) (matches params t)

  unfoldable pub search : ListingSearchParams → Tables → SearchResult
  search params t =
      let rows =
        take (page_size_of params)
          (drop ((page_of params - 1) * page_size_of params) (ranking params t)) in
      record { rows = rows; total = total_of rows (matches params t) }

  -- `CatalogService.search` clamps before the repository does.
  unfoldable pub service_search : ListingSearchParams → Tables → SearchResult
  service_search params t =
      search
        (record params { page = some (page_of params); page_size = some (page_size_of params) }) t

unfoldable pub find_by_key : (listing_key : ℕ) → Tables → Option Joined
find_by_key listing_key t =
    find (λ j. j.listing.id == listing_key && public_scope j) (visible_rows t t.listings)

unfoldable pub find_by_locality : LocalityRefDto → (limit : ℕ) → Tables → List Joined
find_by_locality ref limit t = take limit (
    sort_by (order_by newest) (
      rows_where
        (λ j.
          text_eq j.locality.city.slug ref.city_slug
          && text_eq j.locality.slug ref.locality_slug
          && public_scope j)
        (visible_rows t t.listings)))

unfoldable pub find_by_city : (city_slug : Text) → (limit : ℕ) → Tables → List Joined
find_by_city city_slug limit t = take limit (
    sort_by (order_by newest) (
      rows_where (λ j. text_eq j.locality.city.slug city_slug && public_scope j)
        (visible_rows t t.listings)))

abbrev pub is_hosts : Tables → ListingRow → Bool
is_hosts t l = any (λ o. o.id == l.organization_id && o.is_host) t.organizations

-- Live rows first, then the closed ones, each part newest first.
unfoldable pub host_order : Joined → Joined → Bool
host_order a b =
    let closed = λ (j : Joined). is_closed j.listing.status in
    if closed a
    then closed b && descending (λ j. get_or j.listing.closed_at (listed_at j.listing)) a b
    else closed b || descending (λ j. get_or j.listing.closed_at (listed_at j.listing)) a b

unfoldable pub find_host_listings : (include_sold : Bool) → (limit : ℕ) → Tables → List Joined
find_host_listings include_sold limit t = take limit (
    sort_by host_order (
      rows_where
        (λ j.
          is_hosts t j.listing
          && public_scope j
          && (include_sold || not (is_closed j.listing.status)))
        (visible_rows t t.listings)))

-- The registration that `selection` joins to a row.
unfoldable pub shown_registration : Joined → Tables → Option ReraRow
shown_registration j t =
    find (is_for j.listing.organization_id j.locality.city.state) t.registrations
