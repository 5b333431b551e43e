-- ===== src/Catalog.antt =====
-- The tables of the catalog (apps/api/src/database/migrations 0004, 0005, 0015 to 0019) and the enums
-- that their columns hold, for apps/api/src/catalog.
--
-- A uuid is a number, a time and a date are numbers, and money and areas are in hundredths, as
-- numeric(16,2) stores them. A locality row carries the row of its city, which every query joins.
pub mod Vocabulary
pub mod Rera
pub mod Properties
pub mod Offers
pub mod Requests
pub mod Filters
pub mod Search
pub mod Mapper
pub mod Admin
pub mod Tests
use real_estate_webapp.Prelude.{
  ℕ, Bool, true, false, ◌&&◌, ◌||◌, Option, none, some, List, ◌==◌, any, Text,
}

pub data PropertyType : Type 0 where
  plot kothi builder_floor flat sco scf booth showroom farmhouse industrial : PropertyType

pub data ListingStatus : Type 0 where
  draft pending_review active under_offer sold rented withdrawn expired rejected : ListingStatus

pub data ListingVisibility : Type 0 where
  public_ network_only private_ : ListingVisibility

pub data TransactionType : Type 0 where
  sale rent lease : TransactionType

pub data PossessionStatus : Type 0 where
  ready_to_move under_construction new_launch : PossessionStatus

pub data Furnishing : Type 0 where
  unfurnished semi_furnished furnished : Furnishing

pub data Facing : Type 0 where
  north south east west ne nw se sw : Facing

pub data AreaUnit : Type 0 where
  sq_ft sq_yd marla kanal acre bigha sq_m : AreaUnit

pub data AreaBasis : Type 0 where
  plot_basis built_up_basis carpet_basis : AreaBasis

pub data PartnerTier : Type 0 where
  own_only public_plus_own network full : PartnerTier

pub record CityRow : Type 0 where
  pub slug : Text
  pub state : Text

pub record LocalityRow : Type 0 where
  pub id : ℕ
  pub slug : Text
  pub city : CityRow

pub record OrganizationRow : Type 0 where
  pub id : ℕ
  pub is_host : Bool

pub record PartnerRow : Type 0 where
  pub partner_org_id : ℕ
  pub tier : PartnerTier
  pub is_active : Bool

pub record ReraRow : Type 0 where
  pub organization_id : ℕ
  pub state : Text
  pub registration_no : Text
  pub authority_name : Text
  pub valid_until : Option ℕ

-- `PropertyInput`. A floor is counted from the fifth basement, which is the lowest one accepted.
pub record PropertyInput : Type 0 where
  pub locality_id : ℕ
  pub property_type : PropertyType
  pub lat : ℕ
  pub lng : ℕ
  pub address_line : Option Text
  pub plot_number : Option Text
  pub pincode : Option Text
  pub plot_area_sqft : Option ℕ
  pub built_up_area_sqft : Option ℕ
  pub carpet_area_sqft : Option ℕ
  pub area_input_value : Option ℕ
  pub area_input_unit : Option AreaUnit
  pub area_conversion_factor : Option ℕ
  pub area_input_basis : Option AreaBasis
  pub bedrooms : Option ℕ
  pub bathrooms : Option ℕ
  pub balconies : Option ℕ
  pub total_floors : Option ℕ
  pub floor_number : Option ℕ
  pub facing : Option Facing
  pub year_built : Option ℕ

pub record PropertyRow : Type 0 where
  pub id : ℕ
  pub columns : PropertyInput

pub record ListingRow : Type 0 where
  pub id : ℕ
  pub organization_id : ℕ
  pub property_id : ℕ
  pub listed_by_user_id : Option ℕ
  pub transaction_type : TransactionType
  pub status : ListingStatus
  pub visibility : ListingVisibility
  pub possession : PossessionStatus
  pub possession_date : Option ℕ
  pub price : ℕ
  pub price_on_request : Bool
  pub price_negotiable : Bool
  pub maintenance_monthly : Option ℕ
  pub booking_amount : Option ℕ
  pub furnishing : Option Furnishing
  pub title : Option Text
  pub description : Option Text
  pub features : List Text
  pub close_price : Option ℕ
  pub closed_at : Option ℕ
  pub published_at : Option ℕ
  pub created_at : ℕ
  pub updated_at : ℕ

pub record PriceRow : Type 0 where
  pub listing_id : ℕ
  pub price : ℕ
  pub changed_by_user_id : Option ℕ

-- The newest entry of the price history stands first.
pub record Tables : Type 0 where
  pub localities : List LocalityRow
  pub organizations : List OrganizationRow
  pub partners : List PartnerRow
  pub user_ids : List ℕ
  pub registrations : List ReraRow
  pub properties : List PropertyRow
  pub listings : List ListingRow
  pub price_history : List PriceRow

abbrev pub is_active : ListingStatus → Bool
is_active active = true
is_active _ = false

abbrev pub is_under_offer : ListingStatus → Bool
is_under_offer under_offer = true
is_under_offer _ = false

-- `status IN ('SOLD', 'RENTED')`
abbrev pub is_closed : ListingStatus → Bool
is_closed sold = true
is_closed rented = true
is_closed _ = false

abbrev pub is_public : ListingVisibility → Bool
is_public public_ = true
is_public _ = false

abbrev pub is_network_only : ListingVisibility → Bool
is_network_only network_only = true
is_network_only _ = false

abbrev pub is_ready : PossessionStatus → Bool
is_ready ready_to_move = true
is_ready _ = false

-- What an active partnership adds to what its partner may read.
abbrev pub tier_shows : PartnerTier → ListingVisibility → ListingStatus → Bool
tier_shows own_only visibility status = false
tier_shows full visibility status = true
tier_shows network visibility status =
    (is_public visibility || is_network_only visibility) && is_active status
tier_shows public_plus_own visibility status = is_public visibility && is_active status

-- What migration 0017 shows to everyone, an anonymous visitor included.
abbrev pub is_open : Tables → ListingRow → Bool
is_open t l =
    is_public l.visibility
    && (is_active l.status
        || is_under_offer l.status
        || (is_closed l.status
            && any (λ o. o.id == l.organization_id && o.is_host) t.organizations))

-- `can_view_listing` of migration 0017, for a viewer of an organisation who is no platform admin.
unfoldable pub can_view_listing : (org : ℕ) → Tables → ListingRow → Bool
can_view_listing org t l =
    l.organization_id == org
    || is_open t l
    || any
        (λ pr. pr.partner_org_id == org && pr.is_active && tier_shows pr.tier l.visibility l.status)
        t.partners
