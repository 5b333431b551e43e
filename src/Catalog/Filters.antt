-- ===== src/Catalog/Filters.antt =====
-- The predicates of a search: `publicScope` and `filters` of
-- apps/api/src/catalog/repositories/listing.repository.ts, with `and` and `or` of
-- utils/sql-filters.ts.
--
-- A comparison with a null column is not true, so its row is left out. PostgreSQL's text search and
-- PostGIS are parameters.
use real_estate_webapp.Prelude.{
  ℕ, Bool, true, false, ◌&&◌, ◌||◌, Option, none, some, List, [], ◌∷◌, ◌==◌, leb, any, map, or_else,
  Text, text_eq,
}
use real_estate_webapp.Catalog.{
  PropertyType, plot, kothi, builder_floor, flat, sco, scf, booth, showroom, farmhouse, industrial,
  TransactionType, sale, rent, lease, PossessionStatus, ready_to_move, under_construction,
  new_launch, Furnishing, unfurnished, semi_furnished, furnished, PropertyRow, is_public, is_active,
  is_under_offer, is_closed,
}
use real_estate_webapp.Catalog.Vocabulary.{
  PropertyTypeDto, ListingStatusDto, TransactionTypeDto, PossessionDto, FurnishingDto,
  property_type_to_db, status_to_db, transaction_to_db, possession_to_db, furnishing_to_db,
}
use real_estate_webapp.Catalog.Offers.{Joined, status_number}

pub record LocalityRefDto : Type 0 where
  pub city_slug : Text
  pub locality_slug : Text

pub record Point : Type 0 where
  pub lat : ℕ
  pub lng : ℕ

pub record BoundsDto : Type 0 where
  pub north : ℕ
  pub south : ℕ
  pub east : ℕ
  pub west : ℕ

pub data ListingSort : Type 0 where
  newest price_asc price_desc beds_desc area_desc : ListingSort

pub record ListingSearchParams : Type 0 where
  pub q : Option Text
  pub city_slugs : List Text
  pub localities : List LocalityRefDto
  pub status : List ListingStatusDto
  pub transaction_type : Option TransactionTypeDto
  pub min_price : Option ℕ
  pub max_price : Option ℕ
  pub min_beds : Option ℕ
  pub min_baths : Option ℕ
  pub min_sqft : Option ℕ
  pub max_sqft : Option ℕ
  pub min_year_built : Option ℕ
  pub max_maintenance : Option ℕ
  pub property_types : List PropertyTypeDto
  pub possession : List PossessionDto
  pub furnishing : List FurnishingDto
  pub features : List Text
  pub polygons : List (List Point)
  pub bounds : Option BoundsDto
  pub sort : Option ListingSort
  pub page : Option ℕ
  pub page_size : Option ℕ

abbrev pub property_type_number : PropertyType → ℕ
property_type_number plot = 0
property_type_number kothi = 1
property_type_number builder_floor = 2
property_type_number flat = 3
property_type_number sco = 4
property_type_number scf = 5
property_type_number booth = 6
property_type_number showroom = 7
property_type_number farmhouse = 8
property_type_number industrial = 9

abbrev pub transaction_number : TransactionType → ℕ
transaction_number sale = 0
transaction_number rent = 1
transaction_number lease = 2

abbrev pub possession_number : PossessionStatus → ℕ
possession_number ready_to_move = 0
possession_number under_construction = 1
possession_number new_launch = 2

abbrev pub furnishing_number : Furnishing → ℕ
furnishing_number unfurnished = 0
furnishing_number semi_furnished = 1
furnishing_number furnished = 2

-- `and`: no predicate at all is true.
unfoldable pub and_all : List Bool → Bool
and_all [] = true
and_all (b ∷ bs) = b && and_all bs

-- `or`: no alternative at all is false.
abbrev pub or_any : List Bool → Bool
or_any [] = false
or_any (b ∷ bs) = b || or_any bs

-- `if (x !== undefined) f.push(…)`
abbrev pub given {ℓ} : {A : Type ℓ} → Option A → (A → Bool) → Bool
given none p = true
given (some a) p = p a

-- `if (params.q)`: an empty text is no filter.
abbrev pub given_text : Option Text → (Text → Bool) → Bool
given_text none p = true
given_text (some []) p = true
given_text (some (c ∷ s)) p = p (c ∷ s)

-- `if (xs?.length) f.push(…)`
abbrev pub any_given {ℓ} : {A : Type ℓ} → List A → (A → Bool) → Bool
any_given [] p = true
any_given (x ∷ xs) p = any p (x ∷ xs)

-- The same with a predicate for each, joined by `or`.
abbrev pub either_given {ℓ} : {A : Type ℓ} → List A → (A → Bool) → Bool
either_given [] p = true
either_given (x ∷ xs) p = or_any (map p (x ∷ xs))

abbrev pub at_least : Option ℕ → ℕ → Bool
at_least none n = false
at_least (some a) n = leb n a

abbrev pub at_most : Option ℕ → ℕ → Bool
at_most none n = false
at_most (some a) n = leb a n

-- `maintenance IS NULL OR maintenance <= n`
abbrev pub none_or_at_most : Option ℕ → ℕ → Bool
none_or_at_most none n = true
none_or_at_most (some a) n = leb a n

-- The area that filters and sorting compare: carpet, then built-up, then plot.
abbrev pub comparable_area : PropertyRow → Option ℕ
comparable_area p =
    or_else p.columns.carpet_area_sqft
      (or_else p.columns.built_up_area_sqft p.columns.plot_area_sqft)

abbrev pub is_furnished_as : Option Furnishing → FurnishingDto → Bool
is_furnished_as none want = false
is_furnished_as (some f) want = furnishing_number f == furnishing_number (furnishing_to_db want)

-- `@>`: the listing has every feature of the request.
unfoldable pub has_features : (wanted listed : List Text) → Bool
has_features [] listed = true
has_features (w ∷ ws) listed = any (text_eq w) listed && has_features ws listed

-- The statuses and the property types that the public catalog can show.
unfoldable pub public_scope : Joined → Bool
public_scope j =
    is_public j.listing.visibility
    && (is_active j.listing.status || is_under_offer j.listing.status || is_closed j.listing.status)
    && any (λ n. n == property_type_number j.property.columns.property_type)
        (0 ∷ 1 ∷ 2 ∷ 3 ∷ 4 ∷ 5 ∷ 6 ∷ 8 ∷ [])

module _ (matches_text : Text → Joined → Bool) (in_bounds : BoundsDto → PropertyRow → Bool)
    (in_polygon : List Point → PropertyRow → Bool) where
  unfoldable pub filters : ListingSearchParams → Joined → Bool
  filters params j =
      let l = j.listing in
      let p = j.property in
      and_all (
        given_text params.q (λ (text : Text). matches_text text j)
        ∷ any_given params.city_slugs (text_eq j.locality.city.slug)
        ∷ either_given params.localities (λ (ref : LocalityRefDto).
          text_eq j.locality.city.slug ref.city_slug && text_eq j.locality.slug ref.locality_slug)
        ∷ any_given params.status
            (λ (s : ListingStatusDto). status_number l.status == status_number (status_to_db s))
        ∷ given params.transaction_type (λ (x : TransactionTypeDto).
          transaction_number l.transaction_type == transaction_number (transaction_to_db x))
        ∷ given params.min_price (λ (n : ℕ). leb n l.price)
        ∷ given params.max_price (λ (n : ℕ). leb l.price n)
        ∷ given params.min_beds (at_least p.columns.bedrooms)
        ∷ given params.min_baths (at_least p.columns.bathrooms)
        ∷ given params.min_year_built (at_least p.columns.year_built)
        ∷ given params.max_maintenance (none_or_at_most l.maintenance_monthly)
        ∷ given params.min_sqft (at_least (comparable_area p))
        ∷ given params.max_sqft (at_most (comparable_area p))
        ∷ any_given params.property_types (λ (x : PropertyTypeDto).
          property_type_number p.columns.property_type
          == property_type_number (property_type_to_db x))
        ∷ any_given params.possession (λ (x : PossessionDto).
          possession_number l.possession == possession_number (possession_to_db x))
        ∷ any_given params.furnishing (is_furnished_as l.furnishing)
        ∷ has_features params.features l.features
        ∷ given params.bounds (λ (b : BoundsDto). in_bounds b p)
        ∷ either_given params.polygons (λ (points : List Point). in_polygon points p)
        ∷ [])
