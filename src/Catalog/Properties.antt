-- ===== src/Catalog/Properties.antt =====
-- apps/api/src/catalog/repositories/property.repository.ts: the physical assets that listings offer,
-- and the localities they stand in. No policy guards these tables.
use real_estate_webapp.Prelude.{
  ℕ, ◌+◌, Bool, true, false, ◌&&◌, ◌||◌, Option, none, some, [], ◌∷◌, ◌==◌, ltb, leb, if◌then◌else◌,
  any, find, Result, ok, err, is_none, is_some, Text, text_eq, get_or,
}
use real_estate_webapp.Http.{HttpError, internal}
use real_estate_webapp.Catalog.{LocalityRow, PropertyInput, PropertyRow, Tables}

abbrev pub is_positive : Option ℕ → Bool
is_positive none = true
is_positive (some n) = ltb 0 n

-- `a IS NULL OR b IS NULL OR a <= b`
abbrev pub within : Option ℕ → Option ℕ → Bool
within none b = true
within (some a) none = true
within (some a) (some b) = leb a b

-- The CHECK constraints of the table, from migrations 0005 and 0015. The ground floor is number 5.
unfoldable pub property_checks : PropertyInput → Bool
property_checks p =
    is_positive p.plot_area_sqft
    && is_positive p.built_up_area_sqft
    && is_positive p.carpet_area_sqft
    && within p.carpet_area_sqft p.built_up_area_sqft
    && (is_none p.floor_number
        || is_none p.total_floors
        || leb (get_or p.floor_number 0) (get_or p.total_floors 0 + 5))
    && ((is_none p.area_input_value
          && is_none p.area_input_unit
          && is_none p.area_conversion_factor
          && is_none p.area_input_basis)
        || (is_some p.area_input_value
            && is_some p.area_input_unit
            && is_some p.area_conversion_factor
            && is_some p.area_input_basis))

abbrev pub has_plot : (plot : Text) → Option Text → Bool
has_plot plot none = false
has_plot plot (some p) = text_eq p plot

unfoldable pub is_same_plot : (locality_id : ℕ) → (plot : Text) → PropertyRow → Bool
is_same_plot locality_id plot r =
    r.columns.locality_id == locality_id && has_plot plot r.columns.plot_number

unfoldable pub insert_property :
    PropertyInput → (new_id : ℕ) → Tables → Result HttpError (ℕ × Tables)
insert_property input new_id t =
    if any (λ loc. loc.id == input.locality_id) t.localities && property_checks input
    then ok
        (new_id, record t { properties = record { id = new_id; columns = input } ∷ t.properties })
    else err internal

-- What `findOrCreate` does with the rows of its SELECT.
abbrev pub found_or_insert :
    Option PropertyRow → PropertyInput → (new_id : ℕ) → Tables → Result HttpError (ℕ × Tables)
found_or_insert (some r) input new_id t = ok (r.id, t)
found_or_insert none input new_id t = insert_property input new_id t

-- An absent or empty plot number is falsy, and no search is made for it.
abbrev pub existing : (locality_id : ℕ) → Option Text → Tables → Option PropertyRow
existing locality_id none t = none
existing locality_id (some []) t = none
existing locality_id (some (c ∷ s)) t = find (is_same_plot locality_id (c ∷ s)) t.properties

unfoldable pub find_or_create :
    PropertyInput → (new_id : ℕ) → Tables → Result HttpError (ℕ × Tables)
find_or_create input new_id t =
    found_or_insert (existing input.locality_id input.plot_number t) input new_id t

unfoldable pub is_named : (city_slug locality_slug : Text) → LocalityRow → Bool
is_named city_slug locality_slug loc =
    text_eq loc.city.slug city_slug && text_eq loc.slug locality_slug

abbrev pub city_state : Option LocalityRow → Option Text
city_state none = none
city_state (some loc) = some loc.city.state

abbrev pub locality_id : Option LocalityRow → Option ℕ
locality_id none = none
locality_id (some loc) = some loc.id

unfoldable pub state_for_locality : (city_slug locality_slug : Text) → Tables → Option Text
state_for_locality city_slug locality_slug t =
    city_state (find (is_named city_slug locality_slug) t.localities)

unfoldable pub resolve_locality : (city_slug locality_slug : Text) → Tables → Option ℕ
resolve_locality city_slug locality_slug t =
    locality_id (find (is_named city_slug locality_slug) t.localities)
