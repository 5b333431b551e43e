-- ===== src/Web/Provider/Ranks.antt =====
-- The enumerations in both searches: the API compares numbers of the database's values, the sample
-- data words of the site.
use real_estate_webapp.Prelude.{
  ℕ, ◌≡◌, ◌∙◌, sym, ap, subst, refl, Bool, true, false, Option, none, some, some-injective,
  none-ne-some, List, [], ◌∷◌, map, ◌==◌, arith, All, any, get_or, get_elem?, text_eq,
}
use mathlib.Core.Option
use real_estate_webapp.Catalog as Catalog
use real_estate_webapp.Catalog.{PropertyRow, AreaBasis, PropertyInput, Tables}
use real_estate_webapp.Catalog.Vocabulary.{
  PropertyTypeDto, ListingStatusDto, PossessionDto, FurnishingDto, property_type_to_db,
  db_to_property_type, status_to_db, db_to_status, possession_to_db, db_to_possession,
  furnishing_to_db, db_to_furnishing,
}
use real_estate_webapp.Catalog.Offers.{status_number}
use real_estate_webapp.Catalog.Filters.{
  property_type_number, possession_number, furnishing_number, any_given, is_furnished_as,
}
use real_estate_webapp.Web.{ListingStatus, active, under_offer, sold, rented, coming_soon}
use real_estate_webapp.Web.Query.{
  status_word, property_type_word, possession_word, furnishing_word, valid_statuses,
  valid_property_types, valid_possession, valid_furnishing,
}
use real_estate_webapp.Web.Query.Words.{
  reads_status, reads_property_type, reads_possession, reads_furnishing,
}
use real_estate_webapp.Web.Provider.{status_from_dto, status_to_dto, among, is_known_among}
use real_estate_webapp.Web.Provider.Filters.{same_word, All-of_each, any_given-among, any_given-map}

abbrev pub is_villa : PropertyTypeDto → Bool
is_villa PropertyTypeDto.villa = true
is_villa _ = false

abbrev status_table : List ListingStatus
status_table = coming_soon ∷ coming_soon ∷ active ∷ under_offer ∷ sold ∷ rented ∷ []

abbrev rank : ListingStatus → ℕ
rank s = status_number (status_to_db (status_to_dto s))

rank-table : (s : ListingStatus) → get_elem? status_table (rank s) ≡ some s
unfolding status_to_db
rank-table active = refl
rank-table under_offer = refl
rank-table sold = refl
rank-table rented = refl
rank-table coming_soon = refl

back_status :
    (st : Catalog.ListingStatus) (d : ListingStatusDto)
    → db_to_status st ≡ some d
    → rank (status_from_dto d) ≡ status_number st
unfolding db_to_status status_to_db
back_status Catalog.ListingStatus.active d h =
    subst (λ x. rank (status_from_dto x) ≡ status_number Catalog.ListingStatus.active)
      (some-injective ListingStatusDto.active d h) refl
back_status Catalog.ListingStatus.under_offer d h =
    subst (λ x. rank (status_from_dto x) ≡ status_number Catalog.ListingStatus.under_offer)
      (some-injective ListingStatusDto.under_offer d h) refl
back_status Catalog.ListingStatus.sold d h =
    subst (λ x. rank (status_from_dto x) ≡ status_number Catalog.ListingStatus.sold)
      (some-injective ListingStatusDto.sold d h) refl
back_status Catalog.ListingStatus.rented d h =
    subst (λ x. rank (status_from_dto x) ≡ status_number Catalog.ListingStatus.rented)
      (some-injective ListingStatusDto.rented d h) refl
back_status Catalog.ListingStatus.draft d h = absurd (none-ne-some d h)
back_status Catalog.ListingStatus.pending_review d h = absurd (none-ne-some d h)
back_status Catalog.ListingStatus.withdrawn d h = absurd (none-ne-some d h)
back_status Catalog.ListingStatus.expired d h = absurd (none-ne-some d h)
back_status Catalog.ListingStatus.rejected d h = absurd (none-ne-some d h)

eqn_comm : (a b : ℕ) → (a == b) ≡ (b == a)
eqn_comm a b = ground arith

pub agree_status :
    (st : Catalog.ListingStatus) (d : ListingStatusDto) (o : Option (List ListingStatus))
    → db_to_status st ≡ some d
    → any_given
        (map status_to_dto (get_or o []))
        (λ s. status_number st == status_number (status_to_db s))
      ≡ among o (λ s. text_eq (status_word s) (status_word (status_from_dto d)))
agree_status st d o h =
    any_given-map status_to_dto (λ s. status_number st == status_number (status_to_db s))
      (get_or o [])
    ∙ any_given-among (λ s. status_number st == rank s)
        (λ s. text_eq (status_word s) (status_word (status_from_dto d))) o
        (All-of_each _
          (λ s.
            eqn_comm (status_number st) (rank s)
            ∙ ap (λ n. rank s == n) (sym (back_status st d h))
            ∙ sym (
                same_word status_word valid_statuses reads_status rank status_table s
                  (status_from_dto d) (rank-table s) (rank-table (status_from_dto d))))
          (get_or o []))

abbrev type_rank : PropertyTypeDto → ℕ
type_rank x = property_type_number (property_type_to_db x)

abbrev type_table : List PropertyTypeDto
type_table =
    PropertyTypeDto.plot ∷ PropertyTypeDto.kothi ∷ PropertyTypeDto.builder_floor
    ∷ PropertyTypeDto.flat ∷ PropertyTypeDto.sco ∷ PropertyTypeDto.scf ∷ PropertyTypeDto.booth
    ∷ PropertyTypeDto.flat ∷ PropertyTypeDto.farmhouse ∷ []

type_rank-table :
    (x : PropertyTypeDto) → is_villa x ≡ false → get_elem? type_table (type_rank x) ≡ some x
unfolding property_type_to_db
type_rank-table PropertyTypeDto.plot h = refl
type_rank-table PropertyTypeDto.kothi h = refl
type_rank-table PropertyTypeDto.builder_floor h = refl
type_rank-table PropertyTypeDto.flat h = refl
type_rank-table PropertyTypeDto.sco h = refl
type_rank-table PropertyTypeDto.scf h = refl
type_rank-table PropertyTypeDto.booth h = refl
type_rank-table PropertyTypeDto.farmhouse h = refl
type_rank-table PropertyTypeDto.villa h = ground (arith, h)

back_type :
    (p : Catalog.PropertyType) (k : PropertyTypeDto)
    → db_to_property_type p ≡ some k
    → (type_rank k ≡ property_type_number p) × (is_villa k ≡ false)
unfolding db_to_property_type property_type_to_db
back_type Catalog.PropertyType.plot k h =
    subst
      (λ x. (type_rank x ≡ property_type_number Catalog.PropertyType.plot) × (is_villa x ≡ false))
      (some-injective PropertyTypeDto.plot k h) (refl, refl)
back_type Catalog.PropertyType.kothi k h =
    subst
      (λ x. (type_rank x ≡ property_type_number Catalog.PropertyType.kothi) × (is_villa x ≡ false))
      (some-injective PropertyTypeDto.kothi k h) (refl, refl)
back_type Catalog.PropertyType.builder_floor k h =
    subst
      (λ x.
        (type_rank x ≡ property_type_number Catalog.PropertyType.builder_floor)
        × (is_villa x ≡ false))
      (some-injective PropertyTypeDto.builder_floor k h) (refl, refl)
back_type Catalog.PropertyType.flat k h =
    subst
      (λ x. (type_rank x ≡ property_type_number Catalog.PropertyType.flat) × (is_villa x ≡ false))
      (some-injective PropertyTypeDto.flat k h) (refl, refl)
back_type Catalog.PropertyType.sco k h =
    subst
      (λ x. (type_rank x ≡ property_type_number Catalog.PropertyType.sco) × (is_villa x ≡ false))
      (some-injective PropertyTypeDto.sco k h) (refl, refl)
back_type Catalog.PropertyType.scf k h =
    subst
      (λ x. (type_rank x ≡ property_type_number Catalog.PropertyType.scf) × (is_villa x ≡ false))
      (some-injective PropertyTypeDto.scf k h) (refl, refl)
back_type Catalog.PropertyType.booth k h =
    subst
      (λ x. (type_rank x ≡ property_type_number Catalog.PropertyType.booth) × (is_villa x ≡ false))
      (some-injective PropertyTypeDto.booth k h) (refl, refl)
back_type Catalog.PropertyType.farmhouse k h =
    subst
      (λ x.
        (type_rank x ≡ property_type_number Catalog.PropertyType.farmhouse) × (is_villa x ≡ false))
      (some-injective PropertyTypeDto.farmhouse k h) (refl, refl)
back_type Catalog.PropertyType.showroom k h = absurd (none-ne-some k h)
back_type Catalog.PropertyType.industrial k h = absurd (none-ne-some k h)

pub no_villa :
    (xs : List PropertyTypeDto) → any is_villa xs ≡ false → All (λ x. is_villa x ≡ false) xs
unfolding any
no_villa [] h = tt
no_villa (x ∷ xs) h = (ground (arith, h), no_villa xs (ground (arith, h)))

pub All-map_types :
    (p : Catalog.PropertyType) (k : PropertyTypeDto)
    → db_to_property_type p ≡ some k
    → (xs : List PropertyTypeDto) → All (λ x. is_villa x ≡ false) xs
    → All
        (λ x.
          (property_type_number p == type_rank x)
          ≡ text_eq (property_type_word x) (property_type_word k))
        xs
All-map_types p k h [] hs = tt
All-map_types p k h (x ∷ xs) (hx, hs) = (
  eqn_comm (property_type_number p) (type_rank x)
      ∙ ap (λ n. type_rank x == n) (sym (back_type p k h).0)
      ∙ sym (
          same_word property_type_word valid_property_types reads_property_type type_rank type_table
            x k (type_rank-table x hx) (type_rank-table k (back_type p k h).1)),
  All-map_types p k h xs hs,
)

abbrev possession_table : List PossessionDto
possession_table =
    PossessionDto.ready_to_move ∷ PossessionDto.under_construction ∷ PossessionDto.new_launch ∷ []

possession_rank-table :
    (x : PossessionDto)
    → get_elem? possession_table (possession_number (possession_to_db x)) ≡ some x
unfolding possession_to_db
possession_rank-table PossessionDto.ready_to_move = refl
possession_rank-table PossessionDto.under_construction = refl
possession_rank-table PossessionDto.new_launch = refl

back_possession : (p : Catalog.PossessionStatus) → possession_to_db (db_to_possession p) ≡ p
unfolding possession_to_db db_to_possession
back_possession Catalog.PossessionStatus.ready_to_move = refl
back_possession Catalog.PossessionStatus.under_construction = refl
back_possession Catalog.PossessionStatus.new_launch = refl

pub agree_possession :
    (p : Catalog.PossessionStatus) (x : PossessionDto)
    → (possession_number p == possession_number (possession_to_db x))
      ≡ text_eq (possession_word x) (possession_word (db_to_possession p))
agree_possession p x =
    eqn_comm (possession_number p) (possession_number (possession_to_db x))
    ∙ ap (λ y. possession_number (possession_to_db x) == possession_number y)
        (sym (back_possession p))
    ∙ sym (
        same_word possession_word valid_possession reads_possession
          (λ y. possession_number (possession_to_db y)) possession_table x (db_to_possession p)
          (possession_rank-table x) (possession_rank-table (db_to_possession p)))

abbrev furnishing_table : List FurnishingDto
furnishing_table =
    FurnishingDto.unfurnished ∷ FurnishingDto.semi_furnished ∷ FurnishingDto.fully_furnished ∷ []

furnishing_rank-table :
    (x : FurnishingDto)
    → get_elem? furnishing_table (furnishing_number (furnishing_to_db x)) ≡ some x
unfolding furnishing_to_db
furnishing_rank-table FurnishingDto.unfurnished = refl
furnishing_rank-table FurnishingDto.semi_furnished = refl
furnishing_rank-table FurnishingDto.fully_furnished = refl

back_furnishing : (f : Catalog.Furnishing) → furnishing_to_db (db_to_furnishing f) ≡ f
unfolding furnishing_to_db db_to_furnishing
back_furnishing Catalog.Furnishing.unfurnished = refl
back_furnishing Catalog.Furnishing.semi_furnished = refl
back_furnishing Catalog.Furnishing.furnished = refl

pub agree_furnishing :
    (f : Option Catalog.Furnishing) (o : Option (List FurnishingDto))
    → any_given (get_or o []) (is_furnished_as f) ≡ is_known_among o (Option.map db_to_furnishing f)
agree_furnishing none o =
    any_given-among (λ x. false) (λ x. false) o (All-of_each _ (λ x. refl) (get_or o []))
agree_furnishing (some f) o =
    any_given-among (is_furnished_as (some f))
      (λ w. text_eq (furnishing_word w) (furnishing_word (db_to_furnishing f))) o
      (All-of_each _
        (λ x.
          eqn_comm (furnishing_number f) (furnishing_number (furnishing_to_db x))
          ∙ ap (λ y. furnishing_number (furnishing_to_db x) == furnishing_number y)
              (sym (back_furnishing f))
          ∙ sym (
              same_word furnishing_word valid_furnishing reads_furnishing
                (λ y. furnishing_number (furnishing_to_db y)) furnishing_table x
                (db_to_furnishing f) (furnishing_rank-table x)
                (furnishing_rank-table (db_to_furnishing f))))
        (get_or o []))
