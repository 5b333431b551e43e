-- ===== src/Web/Query/Words.antt =====
-- The words of the site's filters: each is read back, and can stand between commas.
use real_estate_webapp.Prelude.{
  ◌≡◌, refl, true, false, some, any, find, Text, text_eq, is_space, trim, trim_start, has_unit,
  read_word,
}
use real_estate_webapp.Catalog.Vocabulary.{PropertyTypeDto, PossessionDto, FurnishingDto}
use real_estate_webapp.Catalog.Filters.{
  ListingSort, newest, price_asc, price_desc, beds_desc, area_desc,
}
use real_estate_webapp.Web.{ListingStatus, active, under_offer, sold, rented, coming_soon}
use real_estate_webapp.Web.Query.{
  status_word, property_type_word, possession_word, furnishing_word, sort_word, valid_statuses,
  valid_property_types, valid_possession, valid_furnishing, valid_sorts, is_filled,
}

-- A text that stands for itself between commas.
abbrev pub IsPlain : Text → Type 0
IsPlain w = (has_unit b',' w ≡ false) × (trim w ≡ w) × (is_filled w ≡ true)

words : Unit {0}
unfolding read_word find text_eq any trim trim_start is_space
words = tt

pub reads_status :
    (x : ListingStatus) → read_word status_word valid_statuses (status_word x) ≡ some x
unfolding words
reads_status active = refl
reads_status under_offer = refl
reads_status sold = refl
reads_status rented = refl
reads_status coming_soon = refl

pub status_word-IsPlain : (x : ListingStatus) → IsPlain (status_word x)
unfolding words
status_word-IsPlain active = (refl, refl, refl)
status_word-IsPlain under_offer = (refl, refl, refl)
status_word-IsPlain sold = (refl, refl, refl)
status_word-IsPlain rented = (refl, refl, refl)
status_word-IsPlain coming_soon = (refl, refl, refl)

pub reads_property_type :
    (x : PropertyTypeDto)
    → read_word property_type_word valid_property_types (property_type_word x) ≡ some x
unfolding words
reads_property_type PropertyTypeDto.plot = refl
reads_property_type PropertyTypeDto.kothi = refl
reads_property_type PropertyTypeDto.builder_floor = refl
reads_property_type PropertyTypeDto.flat = refl
reads_property_type PropertyTypeDto.villa = refl
reads_property_type PropertyTypeDto.sco = refl
reads_property_type PropertyTypeDto.scf = refl
reads_property_type PropertyTypeDto.booth = refl
reads_property_type PropertyTypeDto.farmhouse = refl

pub property_type_word-IsPlain : (x : PropertyTypeDto) → IsPlain (property_type_word x)
unfolding words
property_type_word-IsPlain PropertyTypeDto.plot = (refl, refl, refl)
property_type_word-IsPlain PropertyTypeDto.kothi = (refl, refl, refl)
property_type_word-IsPlain PropertyTypeDto.builder_floor = (refl, refl, refl)
property_type_word-IsPlain PropertyTypeDto.flat = (refl, refl, refl)
property_type_word-IsPlain PropertyTypeDto.villa = (refl, refl, refl)
property_type_word-IsPlain PropertyTypeDto.sco = (refl, refl, refl)
property_type_word-IsPlain PropertyTypeDto.scf = (refl, refl, refl)
property_type_word-IsPlain PropertyTypeDto.booth = (refl, refl, refl)
property_type_word-IsPlain PropertyTypeDto.farmhouse = (refl, refl, refl)

pub reads_possession :
    (x : PossessionDto) → read_word possession_word valid_possession (possession_word x) ≡ some x
unfolding words
reads_possession PossessionDto.ready_to_move = refl
reads_possession PossessionDto.under_construction = refl
reads_possession PossessionDto.new_launch = refl

pub possession_word-IsPlain : (x : PossessionDto) → IsPlain (possession_word x)
unfolding words
possession_word-IsPlain PossessionDto.ready_to_move = (refl, refl, refl)
possession_word-IsPlain PossessionDto.under_construction = (refl, refl, refl)
possession_word-IsPlain PossessionDto.new_launch = (refl, refl, refl)

pub reads_furnishing :
    (x : FurnishingDto) → read_word furnishing_word valid_furnishing (furnishing_word x) ≡ some x
unfolding words
reads_furnishing FurnishingDto.unfurnished = refl
reads_furnishing FurnishingDto.semi_furnished = refl
reads_furnishing FurnishingDto.fully_furnished = refl

pub furnishing_word-IsPlain : (x : FurnishingDto) → IsPlain (furnishing_word x)
unfolding words
furnishing_word-IsPlain FurnishingDto.unfurnished = (refl, refl, refl)
furnishing_word-IsPlain FurnishingDto.semi_furnished = (refl, refl, refl)
furnishing_word-IsPlain FurnishingDto.fully_furnished = (refl, refl, refl)

pub reads_sort : (x : ListingSort) → read_word sort_word valid_sorts (sort_word x) ≡ some x
unfolding words
reads_sort newest = refl
reads_sort price_asc = refl
reads_sort price_desc = refl
reads_sort beds_desc = refl
reads_sort area_desc = refl
