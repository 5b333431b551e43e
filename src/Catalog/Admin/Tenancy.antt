-- ===== src/Catalog/Admin/Tenancy.antt =====
-- What staff of one organisation can change, and what they are shown, of the listings of others.
use real_estate_webapp.Prelude.{
  length, ◌≤◌, subst, sym, sort_by, take-all, length-sort_by, perm-sort_by, any-perm, ℕ, ◌≡◌, ◌≢◌,
  ◌∙◌, ap, refl, ◌⊎◌, inl, inr, Bool, true, false, not, ◌&&◌, Option, none, some, some-injective,
  List, [], ◌∷◌, ◌==◌, Bool-cases, Option-cases, arith, any, find-none_of_any, get_elem?, IsKeyed,
  find_at, ok, err, or_throw, zero, suc,
}
use real_estate_webapp.Http.{not_found, forbidden}
use real_estate_webapp.Catalog.{ReraRow, ListingRow, Tables, is_public, is_active, can_view_listing}
use real_estate_webapp.Catalog.Rera.{find_valid}
use real_estate_webapp.Catalog.Offers.{
  Joined, activates, writable, readable, joined, joined_first, keep_joined, rows_for_org,
  updated_last, list_for_staff, update_listing, find_one_for_edit,
}
use real_estate_webapp.Catalog.Requests.{Principal, UpdateListingDto, next_status}
use real_estate_webapp.Catalog.Admin.{
  Moment, refusal, assert_publishable, update_gate, update, get_for_edit,
}
use real_estate_webapp.Catalog.Admin.Gate.{update_row, joined-listing}

-- Staff cannot change a listing of another organisation: whatever the request and its answer, the row
-- stays as it was.
pub other_listing_kept :
    (listing_id i : ℕ) (dto : UpdateListingDto) (principal : Principal) (m : Moment) (t : Tables)
    → (l : ListingRow) → get_elem? t.listings i ≡ some l
    → l.organization_id ≢ principal.organization_id
    → get_elem? (update listing_id dto principal m t).tables.listings i ≡ some l
other_listing_kept listing_id i dto principal m t l e other =
    elim (update_row listing_id dto principal m t i l e) [
      | inl same ↦ same
      | inr (current, found, open_, ours, moved) ↦
          let equal : l.organization_id ≡ principal.organization_id = ground (arith, ours) in
          absurd (other equal)
    ]

refusal-cases :
    (o : Option ReraRow)
    → (refusal o ≡ none) ⊎ (refusal o ≡ some (forbidden "Cannot publish a listing in this state."))
refusal-cases none = inr refl
refusal-cases (some r) = inl refl

update_gate-cases :
    (j : Joined) (dto : UpdateListingDto) (org today : ℕ) (t : Tables)
    → (update_gate j dto org today t ≡ none)
      ⊎ (update_gate j dto org today t ≡ some (forbidden "Cannot publish a listing in this state."))
unfolding update_gate assert_publishable
update_gate-cases j dto org today t =
    elim (Bool-cases (activates (next_status dto) && not (is_active j.listing.status))) [
      | inl asked ↦
          rw (asked) (refusal-cases (find_valid org j.locality.city.state today t.registrations))
      | inr quiet ↦ rw (quiet) (inl refl)
    ]

-- An update of a listing that is not the caller's own stores nothing, and is answered "not found" or
-- "forbidden".
pub update_of_other_refused :
    (listing_id : ℕ) (dto : UpdateListingDto) (principal : Principal) (m : Moment) (t : Tables)
    → any (writable listing_id principal.organization_id) t.listings ≡ false
    → ((update listing_id dto principal m t).tables ≡ t)
      × (((update listing_id dto principal m t).answer ≡ err (not_found "Listing not found."))
          ⊎ ((update listing_id dto principal m t).answer
              ≡ err (forbidden "Cannot publish a listing in this state.")))
unfolding update update_listing
update_of_other_refused listing_id dto principal m t foreign =
    let org = principal.organization_id in
    let missing = find-none_of_any (writable listing_id org) t.listings foreign in
    elim (Option-cases (find_one_for_edit listing_id org t)) [
      | inl absent ↦ rw (absent) (refl, inl refl)
      | inr (current, seen) ↦ elim (update_gate-cases current dto org m.today t) [
        | inl open_ ↦ rw (seen, open_, missing) (refl, inl refl)
        | inr shut ↦ rw (seen, shut) (refl, inr refl)
      ]
    ]

-- Every organisation reads what the public reads.
can_view-public :
    (org : ℕ) (t : Tables) (l : ListingRow)
    → is_public l.visibility ≡ true
    → is_active l.status ≡ true
    → can_view_listing org t l ≡ true
unfolding can_view_listing
can_view-public org t l shown live = ground (arith, shown, live)

any-keep_joined :
    (p : Joined → Bool) (o : Option Joined) (js : List Joined)
    → any p js ≡ true
    → any p (keep_joined o js) ≡ true
unfolding any
any-keep_joined p none js h = h
any-keep_joined p (some j) js h = ground (arith, h)

rows_for_org_has :
    (org i : ℕ) (t : Tables) (ls : List ListingRow) (l : ListingRow) (j : Joined)
    → get_elem? ls i ≡ some l
    → can_view_listing org t l ≡ true
    → joined t l ≡ some j
    → any (λ k. k.listing.id == l.id) (rows_for_org org none t ls) ≡ true
unfolding rows_for_org any
rows_for_org_has org i t [] l j e seen there = ground (arith, e)
rows_for_org_has org zero t (x ∷ ls) l j e seen there =
    let same : x ≡ l = some-injective _ _ e in
    let id : j.listing.id ≡ l.id = ap (λ (y : ListingRow). y.id) (joined-listing t l j there) in
    rw (same, seen, there) (ground (arith, id))
rows_for_org_has org (suc i) t (x ∷ ls) l j e seen there =
    let later = rows_for_org_has org i t ls l j e seen there in
    elim (Bool-cases (can_view_listing org t x)) [
      | inl shown ↦ rw (shown) (
          any-keep_joined (λ k. k.listing.id == l.id) (joined t x) (rows_for_org org none t ls)
            later)
      | inr hidden ↦ rw (hidden) later
    ]

-- Every organisation's list has room for all the listings it sees.
listed_when_few :
    (org : ℕ) (t : Tables) (p : Joined → Bool)
    → length (rows_for_org org none t t.listings) ≤ 100
    → any p (rows_for_org org none t t.listings) ≡ true
    → any p (list_for_staff org none t) ≡ true
unfolding list_for_staff
listed_when_few org t p few h =
    let rows = rows_for_org org none t t.listings in
    let sorted = sort_by updated_last rows in
    let small : length sorted ≤ 100 =
      subst (λ n. n ≤ 100) (sym (length-sort_by updated_last rows)) few in
    ap (any p) (take-all 100 sorted small) ∙ any-perm p (perm-sort_by updated_last rows) ∙ h

-- The staff list of an organisation is not confined to its own inventory: whatever public and active
-- listing any organisation holds, with the property and the locality that it refers to, opens in the
-- edit form of every other, and stands in the list of every other that sees a hundred listings at most,
-- which is the limit of the list. The ids of the listings are unique.
pub list_shows_rivals :
    (org i : ℕ) (t : Tables) (l : ListingRow) (j : Joined)
    → IsKeyed (λ (x : ListingRow). x.id) t.listings
    → get_elem? t.listings i ≡ some l
    → is_public l.visibility ≡ true
    → is_active l.status ≡ true
    → joined t l ≡ some j
    → length (rows_for_org org none t t.listings) ≤ 100
    → (any (λ k. k.listing.id == l.id) (list_for_staff org none t) ≡ true)
      × (get_for_edit l.id org t ≡ ok j)
unfolding get_for_edit find_one_for_edit
list_shows_rivals org i t l j keyed e shown live there few =
    let seen = can_view-public org t l shown live in
    let first =
      find_at (λ (x : ListingRow). x.id) (readable l.id org t) t.listings i l keyed e
        (rw (seen) (ground arith)) (λ y on. ground (arith, on)) in
    (
      listed_when_few org t (λ k. k.listing.id == l.id) few
          (rows_for_org_has org i t t.listings l j e seen there),
      ap (λ o. or_throw (not_found "Listing not found.") (joined_first o t)) first
          ∙ ap (or_throw (not_found "Listing not found.")) there,
    )
