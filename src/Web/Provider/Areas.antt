-- ===== src/Web/Provider/Areas.antt =====
-- The area that the site compares is the one that the API compares.
use real_estate_webapp.Prelude.{
  ℕ, ◌≡◌, ◌∙◌, ap, refl, Bool, true, false, Option, none, some, if◌then◌else◌, get_or, or_else,
}
use mathlib.Core.Option
use real_estate_webapp.Catalog as Catalog
use real_estate_webapp.Catalog.{
  PropertyRow, AreaBasis, plot_basis, built_up_basis, carpet_basis, PropertyInput, Tables,
}
use real_estate_webapp.Catalog.Vocabulary.{PropertyTypeDto, ListingStatusDto}
use real_estate_webapp.Catalog.Offers.{Joined}
use real_estate_webapp.Catalog.Filters.{comparable_area}
use real_estate_webapp.Catalog.Mapper.{Names, area, is_basis, entered_area, plain_area, dto_of}
use real_estate_webapp.Web.Provider.{StoredArea, to_stored_area, to_listing, comparable_sqft}

entered_sqft :
    (n : ℕ) (v : Option ℕ) (u : Option Catalog.AreaUnit) (f : Option ℕ)
    → (entered_area n v u f).sqft ≡ n
entered_sqft n none u f = refl
entered_sqft n (some v) none f = refl
entered_sqft n (some v) (some u) f = refl

chosen_sqft :
    (on : Bool) (n : ℕ) (p : PropertyInput)
    → (if on
        then entered_area n p.area_input_value p.area_input_unit p.area_conversion_factor
        else plain_area n).sqft
      ≡ n
chosen_sqft true n p = entered_sqft n p.area_input_value p.area_input_unit p.area_conversion_factor
chosen_sqft false n p = refl

abbrev sqft_of : Option StoredArea → Option ℕ
sqft_of = Option.map (λ (a : StoredArea). a.sqft)

area_sqft :
    (o : Option ℕ) (b : AreaBasis) (p : PropertyInput)
    → sqft_of (Option.map to_stored_area (area o b p)) ≡ o
unfolding area
area_sqft none b p = refl
area_sqft (some n) b p = ap some (chosen_sqft (is_basis b p.area_input_basis) n p)

sqft-or_else : (a b : Option StoredArea) → sqft_of (or_else a b) ≡ or_else (sqft_of a) (sqft_of b)
sqft-or_else none b = refl
sqft-or_else (some a) b = refl

pub comparable_same :
    (now : ℕ) (names : Names) (t : Tables) (j : Joined) (s : ListingStatusDto) (k : PropertyTypeDto)
    → comparable_sqft (to_listing (dto_of now names t j s k))
      ≡ get_or (comparable_area j.property) 0
unfolding dto_of
comparable_same now names t j s k =
    let p = j.property.columns in
    let wire = λ (o : Option ℕ) (b : AreaBasis). Option.map to_stored_area (area o b p) in
    let carpet = wire p.carpet_area_sqft carpet_basis in
    let built = wire p.built_up_area_sqft built_up_basis in
    let land = wire p.plot_area_sqft plot_basis in
    ap (λ o. get_or o 0)
      (sqft-or_else carpet (or_else built land) ∙ (λ i.
        or_else (area_sqft p.carpet_area_sqft carpet_basis p i) (
          (sqft-or_else built land ∙ (λ k.
              or_else (area_sqft p.built_up_area_sqft built_up_basis p k)
                (area_sqft p.plot_area_sqft plot_basis p k)))
            i)))
