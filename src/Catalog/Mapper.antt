-- ===== src/Catalog/Mapper.antt =====
-- A row as the wire shows it: apps/api/src/catalog/mappers/listing.mapper.ts, with `toDtos` of
-- services/catalog.service.ts.
--
-- Photos are left out, and so is the text form of dates. A numeric column is the number that it
-- stores.
pub mod Shown
pub mod Tests
use real_estate_webapp.Prelude.{
  ℕ, ◌-◌, ◌/◌, ◌++◌, Bool, true, false, Option, none, some, List, [], ◌∷◌, get_or, or_else, Text,
  trim, rows_where, keep_some, if◌then◌else◌,
}
use mathlib.Core.Option
use real_estate_webapp.Catalog.{
  AreaUnit, AreaBasis, plot_basis, built_up_basis, carpet_basis, PropertyInput, ReraRow, Tables,
}
use real_estate_webapp.Catalog.Vocabulary.{
  PropertyTypeDto, ListingStatusDto, TransactionTypeDto, PossessionDto, FurnishingDto, FacingDto,
  db_to_property_type, db_to_status, db_to_transaction, db_to_possession, db_to_furnishing,
  db_to_facing,
}
use real_estate_webapp.Catalog.Offers.{Joined}
use real_estate_webapp.Catalog.Search.{listed_at, is_hosts, shown_registration}

-- The columns of a row that the tables of the model do not have.
pub record Names : Type 0 where
  pub reference_code : Text
  pub project_name : Option Text
  pub locality_name : Text
  pub city_name : Text
  pub org_name : Text
  pub agent_name : Option Text
  pub project_rera_no : Option Text

pub record AreaDto : Type 0 where
  pub sqft : ℕ
  pub input_value : Option ℕ
  pub input_unit : Option AreaUnit
  pub conversion_factor : Option ℕ

pub record AddressDto : Type 0 where
  pub house_number : Option Text
  pub line1 : Text
  pub project_name : Option Text
  pub city : Text
  pub state : Text
  pub pincode : Text
  pub unparsed : Text

pub record ListingDto : Type 0 where
  pub listing_key : ℕ
  pub reference_code : Text
  pub status : ListingStatusDto
  pub transaction_type : TransactionTypeDto
  pub list_price : ℕ
  pub price_on_request : Bool
  pub close_price : Option ℕ
  pub address : AddressDto
  pub lat : ℕ
  pub lng : ℕ
  pub city_slug : Text
  pub locality_slug : Text
  pub bedrooms_total : Option ℕ
  pub bathrooms_total : Option ℕ
  pub balconies : Option ℕ
  pub built_up_area : Option AreaDto
  pub carpet_area : Option AreaDto
  pub plot_area : Option AreaDto
  pub floor : Option ℕ
  pub total_floors : Option ℕ
  pub year_built : Option ℕ
  pub possession : PossessionDto
  pub possession_date : Option ℕ
  pub property_type : PropertyTypeDto
  pub furnishing : Option FurnishingDto
  pub facing : Option FacingDto
  pub maintenance_charges : Option ℕ
  pub public_remarks : Text
  pub features : List Text
  pub days_on_market : ℕ
  pub modification_timestamp : ℕ
  pub list_date : ℕ
  pub listed_by_firm : Text
  pub listed_by_agent : Text
  pub rera_agent_registration : Text
  pub rera_project_registration : Option Text
  pub is_own_listing : Bool

abbrev pub is_basis : AreaBasis → Option AreaBasis → Bool
is_basis plot_basis (some plot_basis) = true
is_basis built_up_basis (some built_up_basis) = true
is_basis carpet_basis (some carpet_basis) = true
is_basis _ _ = false

abbrev pub plain_area : ℕ → AreaDto
plain_area n = record { sqft = n; input_value = none; input_unit = none; conversion_factor = none }

-- The figure as it was entered, where both the value and the unit are there.
abbrev pub entered_area :
    ℕ → (value : Option ℕ) → (unit : Option AreaUnit) → (factor : Option ℕ) → AreaDto
entered_area n none unit factor = plain_area n
entered_area n (some v) none factor = plain_area n
entered_area n (some v) (some u) factor = record {
  sqft = n;
  input_value = some v;
  input_unit = some u;
  conversion_factor = factor;
}

unfoldable pub area : (sqft : Option ℕ) → (basis : AreaBasis) → PropertyInput → Option AreaDto
area none basis p = none
area (some n) basis p = some (
    if is_basis basis p.area_input_basis
    then entered_area n p.area_input_value p.area_input_unit p.area_conversion_factor
    else plain_area n)

abbrev pub day_ms : ℕ
day_ms = 86400000

-- A difference below zero counts as no day.
unfoldable pub days_on_market : (now : ℕ) → Joined → ℕ
days_on_market now j = (get_or j.listing.closed_at now - listed_at j.listing) / day_ms

abbrev pub is_part : Text → Bool
is_part t = elim (trim t) [ [] ↦ false | c ∷ s ↦ true ]

abbrev pub part : Option Text → List Text
part none = []
part (some t) = if is_part t then t ∷ [] else []

-- `parts.join(", ")`
unfoldable pub comma_join : List Text → Text
comma_join [] = []
comma_join (w ∷ []) = w
comma_join (w ∷ v ∷ ws) = w ++ b',' ∷ b' ' ∷ comma_join (v ∷ ws)

unfoldable pub unparsed_address : Names → Joined → Text
unparsed_address names j =
    let p = j.property.columns in
    comma_join (
      part p.plot_number
      ++ (part p.address_line
          ++ (part names.project_name
              ++ (part (some names.locality_name)
                  ++ (part (some names.city_name) ++ part p.pincode)))))

abbrev pub registration_text : Option ReraRow → Text
registration_text none = []
registration_text (some r) = r.registration_no

unfoldable pub dto_of :
    (now : ℕ) → Names → Tables → Joined → ListingStatusDto → PropertyTypeDto → ListingDto
dto_of now names t j status property_type =
    let l = j.listing in
    let p = j.property.columns in
    record {
      listing_key = l.id;
      reference_code = names.reference_code;
      status = status;
      transaction_type = db_to_transaction l.transaction_type;
      list_price = l.price;
      price_on_request = l.price_on_request;
      close_price = l.close_price;
      address = record {
        house_number = p.plot_number;
        line1 = get_or p.address_line names.locality_name;
        project_name = names.project_name;
        city = names.city_name;
        state = j.locality.city.state;
        pincode = get_or p.pincode [];
        unparsed = unparsed_address names j;
      };
      lat = p.lat;
      lng = p.lng;
      city_slug = j.locality.city.slug;
      locality_slug = j.locality.slug;
      bedrooms_total = p.bedrooms;
      bathrooms_total = p.bathrooms;
      balconies = p.balconies;
      built_up_area = area p.built_up_area_sqft built_up_basis p;
      carpet_area = area p.carpet_area_sqft carpet_basis p;
      plot_area = area p.plot_area_sqft plot_basis p;
      floor = p.floor_number;
      total_floors = p.total_floors;
      year_built = p.year_built;
      possession = db_to_possession l.possession;
      possession_date = l.possession_date;
      property_type = property_type;
      furnishing = Option.map db_to_furnishing l.furnishing;
      facing = Option.map db_to_facing p.facing;
      maintenance_charges = l.maintenance_monthly;
      public_remarks = get_or (or_else l.description l.title) [];
      features = l.features;
      days_on_market = days_on_market now j;
      modification_timestamp = l.updated_at;
      list_date = listed_at l;
      listed_by_firm = names.org_name;
      listed_by_agent = get_or names.agent_name names.org_name;
      rera_agent_registration = registration_text (shown_registration j t);
      rera_project_registration = names.project_rera_no;
      is_own_listing = is_hosts t l;
    }

abbrev pub on_type :
    (now : ℕ)
    → Names
    → Tables
    → Joined
    → ListingStatusDto
    → Option PropertyTypeDto
    → Option ListingDto
on_type now names t j status none = none
on_type now names t j status (some kind) = some (dto_of now names t j status kind)

abbrev pub on_status :
    (now : ℕ) → Names → Tables → Joined → Option ListingStatusDto → Option ListingDto
on_status now names t j none = none
on_status now names t j (some status) =
    on_type now names t j status (db_to_property_type j.property.columns.property_type)

-- `none` is the error for a row that has no place on the wire.
unfoldable pub to_listing_dto :
    (now : ℕ) → (names : Joined → Names) → Tables → Joined → Option ListingDto
to_listing_dto now names t j = on_status now (names j) t j (db_to_status j.listing.status)

-- A row that cannot be mapped is skipped.
unfoldable pub to_dtos :
    (now : ℕ) → (names : Joined → Names) → Tables → List Joined → List ListingDto
to_dtos now names t rows = keep_some (to_listing_dto now names t) rows
