-- ===== src/Catalog/Mapper/Shown.antt =====
-- What the mapper does with the rows of the public catalog.
use real_estate_webapp.Prelude.{
  ℕ, suc, ◌+◌, ◌-◌, ◌*◌, ◌≤◌, ◌≡◌, ◌∙◌, refl, sym, subst, ap, Option-cases, some-injective,
  none-ne-some, inl, inr, Bool, true, false, ◌&&◌, ◌||◌, Option, none, some, List, [], ◌∷◌, ◌==◌,
  any, get_or, arith, All, All-take, All-drop, All-rows_where, All-map, All-sort_by, sort_by,
  length, keep_some, keep_some-cons, Text, if◌then◌else◌,
}
use real_estate_webapp.Catalog as Catalog
use real_estate_webapp.Catalog.{
  AreaUnit, AreaBasis, plot_basis, built_up_basis, carpet_basis, PropertyRow, PropertyInput, Tables,
  is_public, is_active, is_under_offer, is_closed,
}
use real_estate_webapp.Catalog.Vocabulary.{
  PropertyTypeDto, ListingStatusDto, db_to_property_type, db_to_status,
}
use real_estate_webapp.Catalog.Offers.{Joined}
use real_estate_webapp.Catalog.Filters.{
  Point, BoundsDto, newest, ListingSearchParams, property_type_number, public_scope, filters,
}
use real_estate_webapp.Catalog.Search.{
  page_of, page_size_of, order_by, visible_rows, matches, ranking, search,
}
use real_estate_webapp.Catalog.Search.Order.{order_by-IsOrder}
use real_estate_webapp.Catalog.Mapper.{
  Names, AreaDto, ListingDto, is_basis, entered_area, plain_area, area, dto_of, on_status, on_type,
  to_listing_dto, to_dtos,
}

-- The row on the wire, where there is one.
pub mapped :
    (now : ℕ) (names : Joined → Names) (t : Tables) (j : Joined) (d : ListingDto)
    → to_listing_dto now names t j ≡ some d
    → (s : ListingStatusDto) × (k : PropertyTypeDto) × (db_to_status j.listing.status ≡ some s)
      × (db_to_property_type j.property.columns.property_type ≡ some k)
      × (d ≡ dto_of now (names j) t j s k)
unfolding to_listing_dto
mapped now names t j d h = elim (Option-cases (db_to_status j.listing.status)) [
  | inl off ↦ absurd (none-ne-some d (rw (off) at h))
  | inr (s, st) ↦ elim (Option-cases (db_to_property_type j.property.columns.property_type)) [
    | inl off ↦ absurd (none-ne-some d (rw (st, off) at h))
    | inr (k, ty) ↦ (s, k, st, ty, sym (some-injective _ d (rw (st, ty) at h)))
  ]
]

status_shown :
    (st : Catalog.ListingStatus)
    → is_active st || is_under_offer st || is_closed st ≡ true
    → (s : ListingStatusDto) × (db_to_status st ≡ some s)
unfolding db_to_status
status_shown Catalog.ListingStatus.active h = (ListingStatusDto.active, refl)
status_shown Catalog.ListingStatus.under_offer h = (ListingStatusDto.under_offer, refl)
status_shown Catalog.ListingStatus.sold h = (ListingStatusDto.sold, refl)
status_shown Catalog.ListingStatus.rented h = (ListingStatusDto.rented, refl)
status_shown Catalog.ListingStatus.draft h = ground (arith, h)
status_shown Catalog.ListingStatus.pending_review h = ground (arith, h)
status_shown Catalog.ListingStatus.withdrawn h = ground (arith, h)
status_shown Catalog.ListingStatus.expired h = ground (arith, h)
status_shown Catalog.ListingStatus.rejected h = ground (arith, h)

type_shown :
    (p : Catalog.PropertyType)
    → any (λ n. n == property_type_number p) (0 ∷ 1 ∷ 2 ∷ 3 ∷ 4 ∷ 5 ∷ 6 ∷ 8 ∷ []) ≡ true
    → (k : PropertyTypeDto) × (db_to_property_type p ≡ some k)
unfolding db_to_property_type any
type_shown Catalog.PropertyType.plot h = (PropertyTypeDto.plot, refl)
type_shown Catalog.PropertyType.kothi h = (PropertyTypeDto.kothi, refl)
type_shown Catalog.PropertyType.builder_floor h = (PropertyTypeDto.builder_floor, refl)
type_shown Catalog.PropertyType.flat h = (PropertyTypeDto.flat, refl)
type_shown Catalog.PropertyType.sco h = (PropertyTypeDto.sco, refl)
type_shown Catalog.PropertyType.scf h = (PropertyTypeDto.scf, refl)
type_shown Catalog.PropertyType.booth h = (PropertyTypeDto.booth, refl)
type_shown Catalog.PropertyType.farmhouse h = (PropertyTypeDto.farmhouse, refl)
type_shown Catalog.PropertyType.showroom h = ground (arith, h)
type_shown Catalog.PropertyType.industrial h = ground (arith, h)

in_scope : (a b c : Bool) → a && b && c ≡ true → (b ≡ true) × (c ≡ true)
in_scope a b c h = (ground (arith, h), ground (arith, h))

-- A row that the public scope lets through has a place on the wire.
pub to_listing_dto-public :
    (now : ℕ) (names : Joined → Names) (t : Tables) (j : Joined)
    → public_scope j ≡ true
    → (d : ListingDto) × (to_listing_dto now names t j ≡ some d)
unfolding public_scope to_listing_dto
to_listing_dto-public now names t j h =
    let l = j.listing in
    let p = j.property.columns in
    let parts =
      in_scope (is_public l.visibility)
        (is_active l.status || is_under_offer l.status || is_closed l.status)
        (any (λ n. n == property_type_number p.property_type) (0 ∷ 1 ∷ 2 ∷ 3 ∷ 4 ∷ 5 ∷ 6 ∷ 8 ∷ []))
        h in
    let (s, st) = status_shown l.status parts.0 in
    let (k, ty) = type_shown p.property_type parts.1 in
    (
      dto_of now (names j) t j s k,
      ap (on_status now (names j) t j) st ∙ ap (on_type now (names j) t j s) ty,
    )

length-to_dtos :
    (now : ℕ) (names : Joined → Names) (t : Tables) (rows : List Joined)
    → All (λ j. public_scope j ≡ true) rows
    → length (to_dtos now names t rows) ≡ length rows
unfolding to_dtos keep_some
length-to_dtos now names t [] h = refl
length-to_dtos now names t (j ∷ rows) (h, hs) =
    let (d, shown) = to_listing_dto-public now names t j h in
    ap length (keep_some-cons (to_listing_dto now names t) j d rows shown)
    ∙ ap suc (length-to_dtos now names t rows hs)

and_left : (a b : Bool) → a && b ≡ true → a ≡ true
and_left a b h = ground (arith, h)

module _ (matches_text : Text → Joined → Bool) (in_bounds : BoundsDto → PropertyRow → Bool)
    (in_polygon : List Point → PropertyRow → Bool) where
  -- No row of a search is lost on its way to the visitor: the error of the mapper, for which the
  -- service skips a row, does not occur for the rows that the search selects.
  pub search-to_dtos :
      (now : ℕ) (names : Joined → Names) (params : ListingSearchParams) (t : Tables)
      → length (to_dtos now names t (search matches_text in_bounds in_polygon params t).rows)
        ≡ length (search matches_text in_bounds in_polygon params t).rows
  unfolding search ranking matches
  search-to_dtos now names params t =
      let s = order_by (get_or params.sort newest) in
      let IsShown = λ (j : Joined). public_scope j ≡ true in
      length-to_dtos now names t (search matches_text in_bounds in_polygon params t).rows (
        All-take IsShown (page_size_of params) _ (
          All-drop IsShown ((page_of params - 1) * page_size_of params)
            (sort_by s (matches matches_text in_bounds in_polygon params t))
            (All-sort_by s (λ j. j.listing.id) (order_by-IsOrder (get_or params.sort newest))
              IsShown (matches matches_text in_bounds in_polygon params t)
              (All-map
                (λ (j : Joined).
                  public_scope j && filters matches_text in_bounds in_polygon params j ≡ true)
                IsShown
                (λ j.
                  and_left (public_scope j) (filters matches_text in_bounds in_polygon params j))
                _
                (All-rows_where
                  (λ j. public_scope j && filters matches_text in_bounds in_polygon params j)
                  (visible_rows t t.listings))))))

-- How many areas carry the figure that was entered.
abbrev pub entered : Option AreaDto → ℕ
entered none = 0
entered (some a) = elim a.input_value [ none ↦ 0 | some v ↦ 1 ]

entered_if :
    (on : Bool) (n : ℕ) (v : Option ℕ) (u : Option AreaUnit) (f : Option ℕ)
    → entered (some (if on then entered_area n v u f else plain_area n)) ≤ (if on then 1 else 0)
entered_if false n v u f = omega arith
entered_if true n none u f = omega arith
entered_if true n (some v) none f = omega arith
entered_if true n (some v) (some u) f = omega arith

entered-area :
    (o : Option ℕ) (b : AreaBasis) (p : PropertyInput)
    → entered (area o b p) ≤ (if is_basis b p.area_input_basis then 1 else 0)
unfolding area
entered-area none b p = ground arith
entered-area (some n) b p =
    entered_if (is_basis b p.area_input_basis) n p.area_input_value p.area_input_unit
      p.area_conversion_factor

one_basis :
    (o : Option AreaBasis)
    → (if is_basis built_up_basis o then 1 else 0)
        + (if is_basis carpet_basis o then 1 else 0)
        + (if is_basis plot_basis o then 1 else 0)
      ≤ 1
one_basis none = omega arith
one_basis (some plot_basis) = omega arith
one_basis (some built_up_basis) = omega arith
one_basis (some carpet_basis) = omega arith

abbrev pub entered_areas : ListingDto → ℕ
entered_areas d = entered d.built_up_area + entered d.carpet_area + entered d.plot_area

-- The figure that the seller entered stands beside one area of a listing at most.
pub to_listing_dto_entered :
    (now : ℕ) (names : Joined → Names) (t : Tables) (j : Joined) (d : ListingDto)
    → to_listing_dto now names t j ≡ some d
    → entered_areas d ≤ 1
unfolding dto_of
to_listing_dto_entered now names t j d h =
    let (s, k, _, _, same) = mapped now names t j d h in
    let p = j.property.columns in
    subst (λ x. entered_areas x ≤ 1) (sym same)
      (omega (
        arith,
        entered-area p.built_up_area_sqft built_up_basis p,
        entered-area p.carpet_area_sqft carpet_basis p,
        entered-area p.plot_area_sqft plot_basis p,
        one_basis p.area_input_basis,
      ))
