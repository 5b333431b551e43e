-- ===== src/Catalog/Vocabulary.antt =====
-- apps/api/src/catalog/utils/enum-maps.ts: the words of the wire (packages/contracts/src/catalog.ts)
-- and the enums of the database.
use real_estate_webapp.Prelude.{◌≡◌, refl, ◌⊎◌, inl, inr, Option, none, some}
use real_estate_webapp.Catalog.{
  PropertyType, ListingStatus, TransactionType, PossessionStatus, Furnishing, Facing,
}

pub data PropertyTypeDto : Type 0 where
  plot kothi builder_floor flat villa sco scf booth farmhouse : PropertyTypeDto

pub data ListingStatusDto : Type 0 where
  active under_offer sold rented coming_soon : ListingStatusDto

pub data TransactionTypeDto : Type 0 where
  sale rent lease : TransactionTypeDto

pub data PossessionDto : Type 0 where
  ready_to_move under_construction new_launch : PossessionDto

pub data FurnishingDto : Type 0 where
  unfurnished semi_furnished fully_furnished : FurnishingDto

pub data FacingDto : Type 0 where
  north south east west north_east north_west south_east south_west : FacingDto

unfoldable pub property_type_to_db : PropertyTypeDto → PropertyType
property_type_to_db plot = PropertyType.plot
property_type_to_db kothi = PropertyType.kothi
property_type_to_db builder_floor = PropertyType.builder_floor
property_type_to_db flat = PropertyType.flat
property_type_to_db villa = PropertyType.flat
property_type_to_db sco = PropertyType.sco
property_type_to_db scf = PropertyType.scf
property_type_to_db booth = PropertyType.booth
property_type_to_db farmhouse = PropertyType.farmhouse

unfoldable pub db_to_property_type : PropertyType → Option PropertyTypeDto
db_to_property_type PropertyType.plot = some plot
db_to_property_type PropertyType.kothi = some kothi
db_to_property_type PropertyType.builder_floor = some builder_floor
db_to_property_type PropertyType.flat = some flat
db_to_property_type PropertyType.sco = some sco
db_to_property_type PropertyType.scf = some scf
db_to_property_type PropertyType.booth = some booth
db_to_property_type PropertyType.farmhouse = some farmhouse
db_to_property_type PropertyType.showroom = none
db_to_property_type PropertyType.industrial = none

unfoldable pub status_to_db : ListingStatusDto → ListingStatus
status_to_db active = ListingStatus.active
status_to_db under_offer = ListingStatus.under_offer
status_to_db sold = ListingStatus.sold
status_to_db rented = ListingStatus.rented
status_to_db coming_soon = ListingStatus.pending_review

unfoldable pub db_to_status : ListingStatus → Option ListingStatusDto
db_to_status ListingStatus.active = some active
db_to_status ListingStatus.under_offer = some under_offer
db_to_status ListingStatus.sold = some sold
db_to_status ListingStatus.rented = some rented
db_to_status ListingStatus.draft = none
db_to_status ListingStatus.pending_review = none
db_to_status ListingStatus.withdrawn = none
db_to_status ListingStatus.expired = none
db_to_status ListingStatus.rejected = none

unfoldable pub possession_to_db : PossessionDto → PossessionStatus
possession_to_db ready_to_move = PossessionStatus.ready_to_move
possession_to_db under_construction = PossessionStatus.under_construction
possession_to_db new_launch = PossessionStatus.new_launch

unfoldable pub db_to_possession : PossessionStatus → PossessionDto
db_to_possession PossessionStatus.ready_to_move = ready_to_move
db_to_possession PossessionStatus.under_construction = under_construction
db_to_possession PossessionStatus.new_launch = new_launch

unfoldable pub transaction_to_db : TransactionTypeDto → TransactionType
transaction_to_db sale = TransactionType.sale
transaction_to_db rent = TransactionType.rent
transaction_to_db lease = TransactionType.lease

unfoldable pub db_to_transaction : TransactionType → TransactionTypeDto
db_to_transaction TransactionType.sale = sale
db_to_transaction TransactionType.rent = rent
db_to_transaction TransactionType.lease = lease

unfoldable pub furnishing_to_db : FurnishingDto → Furnishing
furnishing_to_db unfurnished = Furnishing.unfurnished
furnishing_to_db semi_furnished = Furnishing.semi_furnished
furnishing_to_db fully_furnished = Furnishing.furnished

unfoldable pub db_to_furnishing : Furnishing → FurnishingDto
db_to_furnishing Furnishing.unfurnished = unfurnished
db_to_furnishing Furnishing.semi_furnished = semi_furnished
db_to_furnishing Furnishing.furnished = fully_furnished

unfoldable pub facing_to_db : FacingDto → Facing
facing_to_db north = Facing.north
facing_to_db south = Facing.south
facing_to_db east = Facing.east
facing_to_db west = Facing.west
facing_to_db north_east = Facing.ne
facing_to_db north_west = Facing.nw
facing_to_db south_east = Facing.se
facing_to_db south_west = Facing.sw

unfoldable pub db_to_facing : Facing → FacingDto
db_to_facing Facing.north = north
db_to_facing Facing.south = south
db_to_facing Facing.east = east
db_to_facing Facing.west = west
db_to_facing Facing.ne = north_east
db_to_facing Facing.nw = north_west
db_to_facing Facing.se = south_east
db_to_facing Facing.sw = south_west

-- A property type that is stored and read again is the one that was sent, except that a villa comes
-- back as a flat.
pub property_type_round_trip :
    (w : PropertyTypeDto)
    → (db_to_property_type (property_type_to_db w) ≡ some w)
      ⊎ ((w ≡ villa) × (db_to_property_type (property_type_to_db w) ≡ some flat))
unfolding property_type_to_db db_to_property_type
property_type_round_trip plot = inl refl
property_type_round_trip kothi = inl refl
property_type_round_trip builder_floor = inl refl
property_type_round_trip flat = inl refl
property_type_round_trip villa = inr (refl, refl)
property_type_round_trip sco = inl refl
property_type_round_trip scf = inl refl
property_type_round_trip booth = inl refl
property_type_round_trip farmhouse = inl refl
