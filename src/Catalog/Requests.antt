-- ===== src/Catalog/Requests.antt =====
-- The requests of apps/api/src/catalog/dto/write-listing.dto.ts, after validation, and what
-- services/listing-admin.service.ts hands to the repositories for them.
use real_estate_webapp.Prelude.{ℕ, Bool, Option, none, some, List, get_or, Text}
use real_estate_webapp.Catalog.{
  ListingStatus, ListingVisibility, AreaUnit, AreaBasis, PropertyInput,
}
use real_estate_webapp.Catalog.Vocabulary.{
  PropertyTypeDto, ListingStatusDto, TransactionTypeDto, PossessionDto, FurnishingDto, FacingDto,
  property_type_to_db, status_to_db, transaction_to_db, possession_to_db, furnishing_to_db,
  facing_to_db,
}
use real_estate_webapp.Catalog.Vocabulary as Wire
use real_estate_webapp.Catalog.Offers.{ListingWriteInput, ListingPatch}

pub record Principal : Type 0 where
  pub organization_id : ℕ
  pub user_id : ℕ

-- `CreateListingDto`, after its validation.
pub record CreateListingDto : Type 0 where
  pub city_slug : Text
  pub locality_slug : Text
  pub lat : ℕ
  pub lng : ℕ
  pub address_line : Option Text
  pub plot_number : Option Text
  pub pincode : Option Text
  pub property_type : PropertyTypeDto
  pub plot_area_sqft : Option ℕ
  pub built_up_area_sqft : Option ℕ
  pub carpet_area_sqft : Option ℕ
  pub area_input_value : Option ℕ
  pub area_input_unit : Option AreaUnit
  pub area_conversion_factor : Option ℕ
  pub area_input_basis : Option AreaBasis
  pub bedrooms : Option ℕ
  pub bathrooms : Option ℕ
  pub balconies : Option ℕ
  pub total_floors : Option ℕ
  pub floor_number : Option ℕ
  pub facing : Option FacingDto
  pub year_built : Option ℕ
  pub transaction_type : Option TransactionTypeDto
  pub price : ℕ
  pub price_on_request : Option Bool
  pub maintenance_charges : Option ℕ
  pub possession : PossessionDto
  pub possession_date : Option ℕ
  pub furnishing : Option FurnishingDto
  pub status : Option ListingStatusDto
  pub visibility : Option ListingVisibility
  pub title : Option Text
  pub description : Option Text
  pub features : Option (List Text)

-- `UpdateListingDto`, after its validation.
pub record UpdateListingDto : Type 0 where
  pub status : Option ListingStatusDto
  pub visibility : Option ListingVisibility
  pub possession : Option PossessionDto
  pub possession_date : Option (Option ℕ)
  pub price : Option ℕ
  pub price_on_request : Option Bool
  pub maintenance_charges : Option (Option ℕ)
  pub furnishing : Option FurnishingDto
  pub title : Option Text
  pub description : Option Text
  pub features : Option (List Text)
  pub close_price : Option (Option ℕ)

abbrev pub map_option {ℓ κ} : {A : Type ℓ} {B : Type κ} → (A → B) → Option A → Option B
map_option f none = none
map_option f (some a) = some (f a)

abbrev pub property_input : CreateListingDto → (locality_id : ℕ) → PropertyInput
property_input dto locality_id = record {
  locality_id = locality_id;
  property_type = property_type_to_db dto.property_type;
  lat = dto.lat;
  lng = dto.lng;
  address_line = dto.address_line;
  plot_number = dto.plot_number;
  pincode = dto.pincode;
  plot_area_sqft = dto.plot_area_sqft;
  built_up_area_sqft = dto.built_up_area_sqft;
  carpet_area_sqft = dto.carpet_area_sqft;
  area_input_value = dto.area_input_value;
  area_input_unit = dto.area_input_unit;
  area_conversion_factor = dto.area_conversion_factor;
  area_input_basis = dto.area_input_basis;
  bedrooms = dto.bedrooms;
  bathrooms = dto.bathrooms;
  balconies = dto.balconies;
  total_floors = dto.total_floors;
  floor_number = dto.floor_number;
  facing = map_option facing_to_db dto.facing;
  year_built = dto.year_built;
}

abbrev pub status_of : CreateListingDto → ListingStatus
status_of dto = status_to_db (get_or dto.status Wire.ListingStatusDto.active)

abbrev pub write_input : CreateListingDto → Principal → (property_id : ℕ) → ListingWriteInput
write_input dto principal property_id = record {
  organization_id = principal.organization_id;
  property_id = property_id;
  listed_by_user_id = some principal.user_id;
  transaction_type = transaction_to_db (get_or dto.transaction_type Wire.TransactionTypeDto.sale);
  status = status_of dto;
  visibility = get_or dto.visibility ListingVisibility.public_;
  possession = possession_to_db dto.possession;
  possession_date = dto.possession_date;
  price = dto.price;
  price_on_request = dto.price_on_request;
  price_negotiable = none;
  maintenance_monthly = dto.maintenance_charges;
  booking_amount = none;
  furnishing = map_option furnishing_to_db dto.furnishing;
  title = dto.title;
  description = dto.description;
  features = dto.features;
}

abbrev pub next_status : UpdateListingDto → Option ListingStatus
next_status dto = map_option status_to_db dto.status

abbrev pub listing_patch : UpdateListingDto → ListingPatch
listing_patch dto = record {
  status = next_status dto;
  visibility = dto.visibility;
  possession = map_option possession_to_db dto.possession;
  possession_date = dto.possession_date;
  price = dto.price;
  price_on_request = dto.price_on_request;
  maintenance_monthly = dto.maintenance_charges;
  furnishing = map_option furnishing_to_db dto.furnishing;
  title = dto.title;
  description = dto.description;
  features = dto.features;
  close_price = dto.close_price;
}
