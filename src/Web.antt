-- ===== src/Web.antt =====
-- The listings of the public site, for apps/web/src/lib/listings: types.ts.
--
-- The words for types of property, possession and furnishing are those of the wire, so its data types
-- serve here; the site's words for a status are its own. A finite number of JavaScript is a value of
-- a type N, which is a parameter, with its reading and printing.
pub mod Query
pub mod Provider
pub mod Wire
mod Tests
use real_estate_webapp.Prelude.{ℕ, Bool, Option, List, Text, or_else, get_or}
use real_estate_webapp.Catalog.Vocabulary.{PropertyTypeDto, PossessionDto, FurnishingDto}
use real_estate_webapp.Catalog.Filters.{LocalityRefDto, Point, BoundsDto, ListingSort}

pub data ListingStatus : Type 0 where
  active under_offer sold rented coming_soon : ListingStatus

-- Without the areas that are drawn on the map.
pub record ListingQuery (N : Type 0) : Type 0 where
  pub q : Option Text
  pub city_slugs : Option (List Text)
  pub localities : Option (List LocalityRefDto)
  pub status : Option (List ListingStatus)
  pub min_price : Option N
  pub max_price : Option N
  pub min_beds : Option N
  pub min_baths : Option N
  pub min_sqft : Option N
  pub max_sqft : Option N
  pub min_year_built : Option N
  pub property_types : Option (List PropertyTypeDto)
  pub possession : Option (List PossessionDto)
  pub furnishing : Option (List FurnishingDto)
  pub max_maintenance : Option N
  pub features : Option (List Text)
  pub sort : Option ListingSort
  pub page : Option N
  pub page_size : Option N
