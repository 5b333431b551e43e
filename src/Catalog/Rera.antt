-- ===== src/Catalog/Rera.antt =====
-- apps/api/src/catalog/repositories/rera.repository.ts and the handlers of staff-rera.controller.ts:
-- the registrations of an organisation, one for each jurisdiction.
use real_estate_webapp.Prelude.{
  ℕ, ◌≡◌, sym, refl, inl, inr, Bool, true, false, ◌&&◌, Option, none, some, List, [], ◌∷◌, ◌==◌,
  leb, if◌then◌else◌, Bool-cases, arith, any, find, update_where, Text, text_eq, text_eq_refl,
  eq_of_text_eq,
}
use real_estate_webapp.Catalog.{ReraRow, Tables}

-- `valid_until IS NULL OR valid_until >= current_date`
abbrev pub is_current : (today : ℕ) → Option ℕ → Bool
is_current today none = true
is_current today (some day) = leb today day

unfoldable pub is_for : (org : ℕ) → (state : Text) → ReraRow → Bool
is_for org state r = r.organization_id == org && text_eq r.state state

unfoldable pub find_valid : (org : ℕ) → (state : Text) → (today : ℕ) → List ReraRow → Option ReraRow
find_valid org state today = find (λ r. is_for org state r && is_current today r.valid_until)

-- `ON CONFLICT (organization_id, state) DO UPDATE SET …`
abbrev pub replaced : (input r : ReraRow) → ReraRow
replaced input r = record r {
  registration_no = input.registration_no;
  authority_name = input.authority_name;
  valid_until = input.valid_until;
}

unfoldable pub upsert : ReraRow → List ReraRow → List ReraRow
upsert input rows =
    if any (is_for input.organization_id input.state) rows
    then update_where (is_for input.organization_id input.state) (replaced input) rows
    else input ∷ rows

-- `PUT staff/rera/:state`: the organisation is the caller's, whatever the body holds.
unfoldable pub put_registration :
    (org : ℕ) (state registration_no authority_name : Text) (valid_until : Option ℕ)
    → Tables
    → Tables
put_registration org state registration_no authority_name valid_until t = record t {
  registrations =
      upsert
        record {
          organization_id = org;
          state = state;
          registration_no = registration_no;
          authority_name = authority_name;
          valid_until = valid_until;
        }
        t.registrations;
}

is_for_self : (input : ReraRow) → is_for input.organization_id input.state input ≡ true
unfolding is_for
is_for_self input = ground (arith, text_eq_refl input.state)

replaced_is_input :
    (input r : ReraRow)
    → is_for input.organization_id input.state r ≡ true
    → replaced input r ≡ input
unfolding is_for
replaced_is_input input r h =
    let org : r.organization_id ≡ input.organization_id = ground (arith, h) in
    let state : r.state ≡ input.state = eq_of_text_eq r.state input.state (ground (arith, h)) in
    λ i. record {
      organization_id = org i;
      state = state i;
      registration_no = input.registration_no;
      authority_name = input.authority_name;
      valid_until = input.valid_until;
    }

-- The jurisdiction of another row is not the one that is written.
is_for_other :
    (input r : ReraRow) (org : ℕ) (state : Text)
    → is_for org state input ≡ false
    → is_for org state r ≡ true
    → is_for input.organization_id input.state r ≡ false
unfolding is_for
is_for_other input r org state other h =
    elim (Bool-cases (is_for input.organization_id input.state r)) [
      | inr off ↦ off
      | inl on ↦
          let state_r : r.state ≡ input.state =
            eq_of_text_eq r.state input.state (ground (arith, on)) in
          let org_r : r.organization_id ≡ input.organization_id = ground (arith, on) in
          let same : is_for org state input ≡ true = rw (sym state_r, sym org_r) h in
          ground (arith, same, other)
    ]

is_for-replaced :
    (input r : ReraRow) (org : ℕ) (state : Text)
    → is_for org state (replaced input r) ≡ is_for org state r
unfolding is_for
is_for-replaced input r org state = refl

find_valid-update_other :
    (input : ReraRow) (org : ℕ) (state : Text) (today : ℕ) (rows : List ReraRow)
    → is_for org state input ≡ false
    → find_valid org state today
        (update_where (is_for input.organization_id input.state) (replaced input) rows)
      ≡ find_valid org state today rows
unfolding find_valid find update_where
find_valid-update_other input org state today [] other = refl
find_valid-update_other input org state today (r ∷ rows) other =
    let ih = find_valid-update_other input org state today rows other in
    elim (Bool-cases (is_for org state r)) [
      | inl on ↦ rw (is_for_other input r org state other on, ih) refl
      | inr off ↦ elim (Bool-cases (is_for input.organization_id input.state r)) [
        | inl hit ↦ rw (hit, is_for-replaced input r org state, off, ih) refl
        | inr miss ↦ rw (miss, off, ih) refl
      ]
    ]

find_valid-update_expired :
    (input : ReraRow) (today : ℕ) (rows : List ReraRow)
    → is_current today input.valid_until ≡ false
    → find_valid input.organization_id input.state today
        (update_where (is_for input.organization_id input.state) (replaced input) rows)
      ≡ none
unfolding find_valid find update_where
find_valid-update_expired input today [] h = refl
find_valid-update_expired input today (r ∷ rows) h =
    let ih = find_valid-update_expired input today rows h in
    elim (Bool-cases (is_for input.organization_id input.state r)) [
      | inl hit ↦ rw (hit, replaced_is_input input r hit, is_for_self input, h) ih
      | inr miss ↦ rw (miss, miss) ih
    ]

find_valid-update_live :
    (input : ReraRow) (today : ℕ) (rows : List ReraRow)
    → is_current today input.valid_until ≡ true
    → any (is_for input.organization_id input.state) rows ≡ true
    → find_valid input.organization_id input.state today
        (update_where (is_for input.organization_id input.state) (replaced input) rows)
      ≡ some input
unfolding find_valid find update_where any
find_valid-update_live input today [] h there = ground arith
find_valid-update_live input today (r ∷ rows) h there =
    elim (Bool-cases (is_for input.organization_id input.state r)) [
      | inl hit ↦ rw (hit, replaced_is_input input r hit, is_for_self input, h) refl
      | inr miss ↦
          rw (miss, miss) (find_valid-update_live input today rows h (ground (arith, miss, there)))
    ]

find_valid-absent :
    (org : ℕ) (state : Text) (today : ℕ) (rows : List ReraRow)
    → any (is_for org state) rows ≡ false
    → find_valid org state today rows ≡ none
unfolding find_valid find any
find_valid-absent org state today [] h = refl
find_valid-absent org state today (r ∷ rows) h =
    ground (arith, h, find_valid-absent org state today rows)
