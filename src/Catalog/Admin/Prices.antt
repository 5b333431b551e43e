-- ===== src/Catalog/Admin/Prices.antt =====
-- The price history: its newest entry for a listing is the price that the listing asks.
pub mod History
use real_estate_webapp.Prelude.{
  ℕ, ◌≡◌, ◌∙◌, sym, ap, subst, refl, ◌⊎◌, inl, inr, Bool, true, false, ◌&&◌, Option, none, some,
  some-injective, List, ◌∷◌, ◌==◌, if◌then◌else◌, Bool-cases, Option-cases, get_or, arith, any,
  find, find_holds, update_where, get_elem?, get_elem-update_where_back, get_elem_of_find, All,
  All-get_elem?, All-of_get_elem, IsKeyed, find_key, find_at, ok, err-ne-ok,
}
use real_estate_webapp.Catalog.{ListingRow, PriceRow, Tables}
use real_estate_webapp.Catalog.Offers.{
  Joined, ListingPatch, patched, writable, listing_checks, user_exists, joined_first,
  update_listing, record_price_change, find_one_for_edit,
}
use real_estate_webapp.Catalog.Requests.{Principal, UpdateListingDto, listing_patch}
use real_estate_webapp.Catalog.Admin.{Moment, update_gate, repriced, update}
use real_estate_webapp.Catalog.Admin.Gate.{readable_at, joined-listing}
use real_estate_webapp.Catalog.Admin.Prices.History.{IsPriced, IsPriced-after}

-- Every listing asks the price of its newest entry.
abbrev pub IsPricedAll : Tables → Type 0
IsPricedAll t = All (IsPriced t.price_history) t.listings

-- What the last step of an update does to the history when it succeeds.
repriced_history :
    (current listing_id : ℕ) (price : Option ℕ) (principal : Principal) (t : Tables)
    → (repriced current price listing_id principal t).answer ≡ ok tt
    → let out = (repriced current price listing_id principal t).tables in
      (out.listings ≡ t.listings)
      × (((out.price_history ≡ t.price_history) × (get_or price current ≡ current))
          ⊎ ((h : PriceRow) × (out.price_history ≡ h ∷ t.price_history)
              × (h.listing_id ≡ listing_id)
              × (price ≡ some h.price)))
unfolding record_price_change
repriced_history current listing_id none principal t done = (refl, inl (refl, refl))
repriced_history current listing_id (some price) principal t done =
    elim (Bool-cases (current == price)) [
      | inl same ↦ rw (same) (refl, inl (refl, ground (arith, same)))
      | inr other ↦
          elim (Bool-cases (
            any (writable listing_id principal.organization_id) t.listings
            && user_exists (some principal.user_id) t)) [
              | inl allowed ↦
                  rw (other, allowed)
                    (
                      refl,
                      inr (
                        record {
                          listing_id = listing_id;
                          price = price;
                          changed_by_user_id = some principal.user_id;
                        },
                        refl,
                        refl,
                        refl,
                      ),
                    )
              | inr refused ↦ absurd (err-ne-ok _ _ (rw (other, refused) at done))
            ]
    ]

-- The row that the request read is the one that it writes.
current_row :
    (listing_id org : ℕ) (t : Tables) (current : Joined) (row : ListingRow)
    → IsKeyed (λ (l : ListingRow). l.id) t.listings
    → find_one_for_edit listing_id org t ≡ some current
    → find (writable listing_id org) t.listings ≡ some row
    → current.listing ≡ row
unfolding find_one_for_edit
current_row listing_id org t current row keyed seen found =
    let (i, at) = get_elem_of_find (writable listing_id org) t.listings row found in
    let ours = find_holds (writable listing_id org) t.listings row found in
    joined-listing t row current
      (ap (λ o. joined_first o t) (sym (readable_at listing_id org i row t keyed at ours)) ∙ seen)

finish :
    (listing_id : ℕ) (dto : UpdateListingDto) (principal : Principal) (m : Moment) (t : Tables)
    → (current : Joined) (row : ListingRow) → IsKeyed (λ (l : ListingRow). l.id) t.listings
    → IsPricedAll t
    → find_one_for_edit listing_id principal.organization_id t ≡ some current
    → find (writable listing_id principal.organization_id) t.listings ≡ some row
    → let u : Tables = record t {
      listings =
          update_where
            (writable listing_id principal.organization_id)
            (patched (listing_patch dto) m.now)
            t.listings;
    } in
      (repriced current.listing.price dto.price listing_id principal u).answer ≡ ok tt
      → IsPricedAll (repriced current.listing.price dto.price listing_id principal u).tables
finish listing_id dto principal m t current row keyed priced seen found done =
    let org = principal.organization_id in
    let p = writable listing_id org in
    let f = patched (listing_patch dto) m.now in
    let u : Tables = record t { listings = update_where p f t.listings } in
    let out = (repriced current.listing.price dto.price listing_id principal u).tables in
    let (same_listings, history) =
      repriced_history current.listing.price listing_id dto.price principal u done in
    let is_row = current_row listing_id org t current row keyed seen found in
    let entered =
      subst
        (λ (l : ListingRow).
          ((out.price_history ≡ t.price_history) × (get_or dto.price l.price ≡ l.price))
          ⊎ ((h : PriceRow) × (out.price_history ≡ h ∷ t.price_history)
              × (h.listing_id ≡ listing_id)
              × (dto.price ≡ some h.price)))
        is_row history in
    All-of_get_elem (IsPriced out.price_history) out.listings (λ i y e.
      let (x, at, is_x) =
        get_elem-update_where_back p f t.listings i y
          (ap (λ ls. get_elem? ls i) (sym same_listings) ∙ e) in
      subst (IsPriced out.price_history) (sym is_x) (
        IsPriced-after listing_id org m.now i (listing_patch dto) row x t out.price_history keyed at
          found (All-get_elem? (IsPriced t.price_history) t.listings i x priced at) entered))

-- The price history keeps up with the prices: when an update succeeds, every listing still asks the
-- price of its newest entry, whether the request left the price alone, named the same price, for which
-- no entry is made, or named another. The ids of the listings are unique.
pub update-IsPricedAll :
    (listing_id : ℕ) (dto : UpdateListingDto) (principal : Principal) (m : Moment) (t : Tables)
    → IsKeyed (λ (l : ListingRow). l.id) t.listings
    → IsPricedAll t
    → (update listing_id dto principal m t).answer ≡ ok tt
    → IsPricedAll (update listing_id dto principal m t).tables
unfolding update update_listing find_one_for_edit
update-IsPricedAll listing_id dto principal m t keyed priced done =
    let org = principal.organization_id in
    let p = writable listing_id org in
    let f = patched (listing_patch dto) m.now in
    elim (Option-cases (find_one_for_edit listing_id org t)) [
      | inl absent ↦ absurd (err-ne-ok _ _ (rw (absent) at done))
      | inr (current, seen) ↦ elim (Option-cases (update_gate current dto org m.today t)) [
        | inr (e, shut) ↦ absurd (err-ne-ok _ _ (rw (seen, shut) at done))
        | inl open_ ↦ elim (Option-cases (find p t.listings)) [
          | inl missing ↦ absurd (err-ne-ok _ _ (rw (seen, open_, missing) at done))
          | inr (row, found) ↦ elim (Bool-cases (listing_checks (f row))) [
            | inr refused ↦ absurd (err-ne-ok _ _ (rw (seen, open_, found, refused) at done))
            | inl accepted ↦
                rw (seen, open_, found, accepted)
                  (finish listing_id dto principal m t current row keyed priced seen found
                    (rw (seen, open_, found, accepted) at done))
          ]
        ]
      ]
    ]
