-- ===== src/Catalog/Admin/Gate.antt =====
-- The gate of publication: what must be registered before a listing goes live.
use real_estate_webapp.Prelude.{
  ℕ, ◌≡◌, ◌∙◌, sym, ap, refl, ◌⊎◌, inl, inr, Bool, true, false, Option, none, some, some-injective,
  ◌==◌, if◌then◌else◌, Bool-cases, Option-cases, is_some, get_or, arith, any, find, update_where,
  get_elem?, get_elem-update_where, IsKeyed, find_at,
}
use real_estate_webapp.Catalog.{
  ListingStatus, LocalityRow, PropertyRow, ReraRow, ListingRow, Tables, is_active, can_view_listing,
}
use real_estate_webapp.Catalog.Rera.{find_valid}
use real_estate_webapp.Catalog.Offers.{
  Joined, activates, patched, writable, readable, listing_checks, joined, joined_property,
  joined_locality, joined_first, update_listing, record_price_change, find_one_for_edit,
}
use real_estate_webapp.Catalog.Requests.{Principal, UpdateListingDto, next_status, listing_patch}
use real_estate_webapp.Catalog.Admin.{
  Moment, refusal, assert_publishable, update_gate, repriced, admitted, update,
}

-- The organisation holds a registration, valid on the day, for the jurisdiction of the row's locality.
abbrev pub IsRegistered : (org today : ℕ) → Tables → Joined → Type 0
IsRegistered org today t j =
    is_some (find_valid org j.locality.city.state today t.registrations) ≡ true

repriced_listings :
    (current : ℕ) (price : Option ℕ) (listing_id : ℕ) (principal : Principal) (t : Tables)
    → (repriced current price listing_id principal t).tables.listings ≡ t.listings
unfolding record_price_change
repriced_listings current none listing_id principal t = refl
repriced_listings current (some price) listing_id principal t =
    elim (Bool-cases (current == price)) [
      | inl same ↦ rw (same) refl
      | inr other ↦
          elim (Bool-cases (any (writable listing_id principal.organization_id) t.listings)) [
            | inl a ↦ elim (Bool-cases (any (λ u. u == principal.user_id) t.user_ids)) [
              | inl b ↦ rw (other, a, b) refl
              | inr b ↦ rw (other, a, b) refl
            ]
            | inr a ↦ rw (other, a) refl
          ]
    ]

-- What a row becomes under a request that is past the gate.
pub admitted_row :
    (current : Joined) (dto : UpdateListingDto) (listing_id : ℕ) (principal : Principal)
    → (m : Moment) (t : Tables) (i : ℕ) (l : ListingRow) → get_elem? t.listings i ≡ some l
    → (get_elem? (admitted none current dto listing_id principal m t).tables.listings i ≡ some l)
      ⊎ ((writable listing_id principal.organization_id l ≡ true)
          × (get_elem? (admitted none current dto listing_id principal m t).tables.listings i
              ≡ some (patched (listing_patch dto) m.now l)))
unfolding update_listing
admitted_row current dto listing_id principal m t i l e =
    let p = writable listing_id principal.organization_id in
    let f = patched (listing_patch dto) m.now in
    elim (Option-cases (find p t.listings)) [
      | inl absent ↦ rw (absent) (inl e)
      | inr (row, found) ↦ elim (Bool-cases (listing_checks (f row))) [
        | inr refused ↦ rw (found, refused) (inl e)
        | inl accepted ↦
            let u : Tables = record t { listings = update_where p f t.listings } in
            let kept = repriced_listings current.listing.price dto.price listing_id principal u in
            let moved =
              ap (λ ls. get_elem? ls i) kept ∙ get_elem-update_where p f t.listings i l e in
            let chosen = λ (b : Bool). some (if b then f l else l) in
            elim (Bool-cases (p l)) [
              | inl ours ↦ rw (found, accepted) (inr (ours, moved ∙ ap chosen ours))
              | inr theirs ↦ rw (found, accepted) (inl (moved ∙ ap chosen theirs))
            ]
      ]
    ]

pub readable_at :
    (listing_id org i : ℕ) (l : ListingRow) (t : Tables)
    → IsKeyed (λ (x : ListingRow). x.id) t.listings
    → get_elem? t.listings i ≡ some l
    → writable listing_id org l ≡ true
    → find (readable listing_id org t) t.listings ≡ some l
unfolding can_view_listing
readable_at listing_id org i l t keyed e ours =
    let mine : l.organization_id == org ≡ true = ground (arith, ours) in
    let named : l.id == listing_id ≡ true = ground (arith, ours) in
    let id : l.id ≡ listing_id = ground (arith, named) in
    find_at (λ (x : ListingRow). x.id) (readable listing_id org t) t.listings i l keyed e
      (rw (named, mine) refl) (λ y on. ground (arith, on, id))

joined_locality-listing :
    (l : ListingRow) (p : PropertyRow) (o : Option LocalityRow) (j : Joined)
    → joined_locality l p o ≡ some j
    → j.listing ≡ l
joined_locality-listing l p none j h = ground (arith, h)
joined_locality-listing l p (some loc) j h =
    ap (λ (x : Joined). x.listing) (sym (some-injective _ _ h))

joined_property-listing :
    (l : ListingRow) (o : Option PropertyRow) (t : Tables) (j : Joined)
    → joined_property l o t ≡ some j
    → j.listing ≡ l
joined_property-listing l none t j h = ground (arith, h)
joined_property-listing l (some p) t j h =
    joined_locality-listing l p (find (λ loc. loc.id == p.columns.locality_id) t.localities) j h

pub joined-listing :
    (t : Tables) (l : ListingRow) (j : Joined) → joined t l ≡ some j → j.listing ≡ l
unfolding joined
joined-listing t l j h =
    joined_property-listing l (find (λ p. p.id == l.property_id) t.properties) t j h

-- What a row becomes under any request.
pub update_row :
    (listing_id : ℕ) (dto : UpdateListingDto) (principal : Principal) (m : Moment) (t : Tables)
    → (i : ℕ) (l : ListingRow) → get_elem? t.listings i ≡ some l
    → (get_elem? (update listing_id dto principal m t).tables.listings i ≡ some l)
      ⊎ ((current : Joined) × (find_one_for_edit listing_id principal.organization_id t
            ≡ some current)
          × (update_gate current dto principal.organization_id m.today t ≡ none)
          × (writable listing_id principal.organization_id l ≡ true)
          × (get_elem? (update listing_id dto principal m t).tables.listings i
              ≡ some (patched (listing_patch dto) m.now l)))
unfolding update
update_row listing_id dto principal m t i l e =
    elim (Option-cases (find_one_for_edit listing_id principal.organization_id t)) [
      | inl absent ↦ rw (absent) (inl e)
      | inr (current, found) ↦
          elim (Option-cases (update_gate current dto principal.organization_id m.today t)) [
            | inr (refused, shut) ↦ rw (found, shut) (inl e)
            | inl open_ ↦ elim (admitted_row current dto listing_id principal m t i l e) [
              | inl same ↦ rw (found, open_) (inl same)
              | inr (ours, moved) ↦ rw (found, open_) (inr (current, refl, open_, ours, moved))
            ]
          ]
    ]

is_active-get_or :
    (next : Option ListingStatus) (s : ListingStatus)
    → is_active s ≡ false
    → is_active (get_or next s) ≡ true
    → activates next ≡ true
is_active-get_or none s off on = ground (arith, off, on)
is_active-get_or (some n) s off on = on

pub refusal-none : (r : Option ReraRow) → refusal r ≡ none → is_some r ≡ true
refusal-none none h = ground (arith, h)
refusal-none (some r) h = refl

update_gate-none :
    (j : Joined) (dto : UpdateListingDto) (org today : ℕ) (t : Tables)
    → update_gate j dto org today t ≡ none
    → activates (next_status dto) ≡ true
    → is_active j.listing.status ≡ false
    → IsRegistered org today t j
unfolding update_gate assert_publishable
update_gate-none j dto org today t open_ on off =
    refusal-none (find_valid org j.locality.city.state today t.registrations)
      (rw (on, off) at open_)

-- Nothing goes live unregistered: whatever the request, a listing that is active after an update and
-- was not active before stands in a jurisdiction for which the organisation of the request holds a
-- registration that is valid on the day. The ids of the listings are unique.
pub update_publishes-IsRegistered :
    (listing_id i : ℕ) (dto : UpdateListingDto) (principal : Principal) (m : Moment) (t : Tables)
    → (before after : ListingRow) → IsKeyed (λ (x : ListingRow). x.id) t.listings
    → get_elem? t.listings i ≡ some before
    → get_elem? (update listing_id dto principal m t).tables.listings i ≡ some after
    → is_active before.status ≡ false
    → is_active after.status ≡ true
    → (j : Joined) × (joined t before ≡ some j) × IsRegistered principal.organization_id m.today t j
unfolding find_one_for_edit patched
update_publishes-IsRegistered listing_id i dto principal m t before after keyed e e2 off on =
    let org = principal.organization_id in
    elim (update_row listing_id dto principal m t i before e) [
      | inl same ↦
          let unmoved : before ≡ after = some-injective _ _ (sym same ∙ e2) in
          let still : is_active after.status ≡ false =
            ap (λ (x : ListingRow). is_active x.status) (sym unmoved) ∙ off in
          ground (arith, still, on)
      | inr (current, found, open_, ours, moved) ↦
          let reached : patched (listing_patch dto) m.now before ≡ after =
            some-injective _ _ (sym moved ∙ e2) in
          let live : is_active (get_or (next_status dto) before.status) ≡ true =
            ap (λ (x : ListingRow). is_active x.status) reached ∙ on in
          let row : joined t before ≡ some current =
            ap (λ o. joined_first o t) (sym (readable_at listing_id org i before t keyed e ours))
            ∙ found in
          let quiet : is_active current.listing.status ≡ false =
            ap (λ (x : ListingRow). is_active x.status) (joined-listing t before current row)
            ∙ off in
          (
            current,
            row,
            update_gate-none current dto org m.today t open_
                (is_active-get_or (next_status dto) before.status off live) quiet,
          )
    ]
