-- ===== src/Catalog/Admin/Closing.antt =====
-- The closing of a deal: when a listing carries a closing date and a closing price.
use real_estate_webapp.Prelude.{
  ℕ, ◌≡◌, ◌≢◌, ◌∙◌, sym, ap, subst, refl, ◌⊎◌, inl, inr, true, not, ◌&&◌, Option, none, some,
  some-injective, if◌then◌else◌, Bool-cases, arith, is_some, is_none, get_or, get_elem?,
}
use real_estate_webapp.Catalog.{ListingStatus, ListingRow, Tables, is_closed}
use real_estate_webapp.Catalog.Offers.{ListingPatch, closes, patched}
use real_estate_webapp.Catalog.Requests.{Principal, UpdateListingDto, map_option, listing_patch}
use real_estate_webapp.Catalog.Vocabulary.{ListingStatusDto, status_to_db}
use real_estate_webapp.Catalog.Admin.{Moment, update}
use real_estate_webapp.Catalog.Admin.Gate.{update_row}

-- A listing has a closing date exactly when it is sold or rented.
abbrev pub IsDated : ListingRow → Type 0
IsDated l = is_some l.closed_at ≡ is_closed l.status

-- The columns as the statement computes them, over the parameter's status.
dated :
    (status : Option ListingStatus) (old : ListingStatus) (closed_at : Option ℕ) (now : ℕ)
    → (is_some closed_at ≡ is_closed old) ⊎ (is_some status ≡ true)
    → is_some (
        if closes status && is_none closed_at
        then some now
        else (if is_some status && not (closes status) then none else closed_at))
      ≡ is_closed (get_or status old)
dated none old closed_at now (inl h) = h
dated none old closed_at now (inr h) = ground (arith, h)
dated (some s) old none now h = elim (Bool-cases (is_closed s)) [
  | inl on ↦ rw (on) refl
  | inr off ↦ rw (off) refl
]
dated (some s) old (some c) now h = elim (Bool-cases (is_closed s)) [
  | inl on ↦ rw (on) refl
  | inr off ↦ rw (off) refl
]

patched-IsDated :
    (patch : ListingPatch) (now : ℕ) (l : ListingRow)
    → IsDated l ⊎ (is_some patch.status ≡ true)
    → IsDated (patched patch now l)
unfolding patched
patched-IsDated patch now l h = dated patch.status l.status l.closed_at now h

is_some-map :
    (status : Option ListingStatusDto)
    → is_some status ≡ true
    → is_some (map_option status_to_db status) ≡ true
is_some-map none h = h
is_some-map (some s) h = refl

-- An update keeps the closing dates right: whatever the request and its answer, a row that had a
-- closing date exactly when it was sold or rented still does. A row for which that failed gets it
-- right when a request that names a status changes it, at another time than its last change.
pub update-IsDated :
    (listing_id i : ℕ) (dto : UpdateListingDto) (principal : Principal) (m : Moment) (t : Tables)
    → (before after : ListingRow) → get_elem? t.listings i ≡ some before
    → get_elem? (update listing_id dto principal m t).tables.listings i ≡ some after
    → IsDated before ⊎ ((is_some dto.status ≡ true) × (after.updated_at ≢ before.updated_at))
    → IsDated after
update-IsDated listing_id i dto principal m t before after e e2 h =
    elim (update_row listing_id dto principal m t i before e) [
      | inl same ↦
          let unmoved : before ≡ after = some-injective _ _ (sym same ∙ e2) in
          subst IsDated unmoved (elim h [
            | inl good ↦ good
            | inr (named, moved) ↦
                absurd (moved (ap (λ (x : ListingRow). x.updated_at) (sym unmoved)))
          ])
      | inr (current, found, open_, ours, moved) ↦
          let reached : patched (listing_patch dto) m.now before ≡ after =
            some-injective _ _ (sym moved ∙ e2) in
          subst IsDated reached (
            patched-IsDated (listing_patch dto) m.now before (elim h [
              | inl good ↦ inl good
              | inr (named, changed_at) ↦ inr (is_some-map dto.status named)
            ]))
    ]
