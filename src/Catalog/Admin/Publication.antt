-- ===== src/Catalog/Admin/Publication.antt =====
-- The gate of publication for a listing that is created: the property it offers may be an older row.
use real_estate_webapp.Prelude.{
  ℕ, ◌≡◌, ◌≢◌, ◌∙◌, sym, ap, subst, refl, ◌⊎◌, inl, inr, true, ◌&&◌, Option, none, some,
  some-injective, List, [], ◌∷◌, ◌==◌, Bool-cases, Option-cases, Result-cases, is_some, arith,
  length, get_elem?, any, find, find_holds, IsKeyed, find_key, Result, ok, ok-injective, Text,
}
use real_estate_webapp.Http.{HttpError}
use real_estate_webapp.Catalog.{
  LocalityRow, PropertyInput, PropertyRow, ListingRow, Tables, is_active,
}
use real_estate_webapp.Catalog.Rera.{find_valid}
use real_estate_webapp.Catalog.Properties.{
  is_same_plot, is_named, existing, found_or_insert, insert_property, property_checks,
  find_or_create, state_for_locality, resolve_locality, city_state,
}
use real_estate_webapp.Catalog.Offers.{
  Joined, new_listing, listing_checks, user_exists, writable, joined, joined_property,
  joined_locality, create_listing, record_price_change,
}
use real_estate_webapp.Catalog.Requests.{
  Principal, CreateListingDto, status_of, property_input, write_input,
}
use real_estate_webapp.Catalog.Admin.{
  Moment, assert_publishable, publishable_in, create_gate, opened, listed, placed, create,
}
use real_estate_webapp.Catalog.Admin.Gate.{IsRegistered, refusal-none}

-- The tables after a property was found or created: where the property stands, and what is as it was.
abbrev HasPlace : (locality property_id : ℕ) → (t u : Tables) → Type 0
HasPlace locality property_id t u =
    (p : PropertyRow) × (find (λ q. q.id == property_id) u.properties ≡ some p)
    × (p.columns.locality_id ≡ locality)
    × (u.listings ≡ t.listings)
    × (u.localities ≡ t.localities)

existing-place :
    (locality : ℕ) (plot : Option Text) (t : Tables) (r : PropertyRow)
    → IsKeyed (λ (p : PropertyRow). p.id) t.properties
    → existing locality plot t ≡ some r
    → HasPlace locality r.id t t
unfolding is_same_plot
existing-place locality none t r keyed e = ground (arith, e)
existing-place locality (some []) t r keyed e = ground (arith, e)
existing-place locality (some (c ∷ s)) t r keyed e =
    let same = find_holds (is_same_plot locality (c ∷ s)) t.properties r e in
    (
      r,
      find_key (λ (p : PropertyRow). p.id) (is_same_plot locality (c ∷ s)) t.properties r keyed e,
      ground (arith, same),
      refl,
      refl,
    )

insert_property-place :
    (input : PropertyInput) (new_id id : ℕ) (t u : Tables)
    → insert_property input new_id t ≡ ok (id, u)
    → HasPlace input.locality_id id t u
unfolding insert_property find
insert_property-place input new_id id t u h =
    elim (Bool-cases
      (any (λ loc. loc.id == input.locality_id) t.localities && property_checks input)) [
        | inr bad ↦ cc (h, bad)
        | inl good ↦
            let stored : Tables = record t {
              properties = record { id = new_id; columns = input } ∷ t.properties;
            } in
            let out : ◌≡◌ {A = Result HttpError (ℕ × Tables)} (ok (new_id, stored)) (ok (id, u)) =
              cc (h, good) in
            let pair = ok-injective _ _ out in
            subst (λ (q : ℕ × Tables). HasPlace input.locality_id q.0 t q.1) pair
              (record { id = new_id; columns = input }, ground arith, refl, refl, refl)
      ]

find_or_create-place :
    (input : PropertyInput) (new_id id : ℕ) (t u : Tables)
    → IsKeyed (λ (p : PropertyRow). p.id) t.properties
    → find_or_create input new_id t ≡ ok (id, u)
    → HasPlace input.locality_id id t u
unfolding find_or_create
find_or_create-place input new_id id t u keyed h =
    let answer = λ (o : Option PropertyRow). found_or_insert o input new_id t in
    elim (Option-cases (existing input.locality_id input.plot_number t)) [
      | inl missing ↦ insert_property-place input new_id id t u (sym (ap answer missing) ∙ h)
      | inr (r, there) ↦
          let pair = ok-injective _ _ (sym (ap answer there) ∙ h) in
          subst (λ (q : ℕ × Tables). HasPlace input.locality_id q.0 t q.1) pair
            (existing-place input.locality_id input.plot_number t r keyed there)
    ]

-- The last step writes to the price history alone.
abbrev SameButPrices : (t u : Tables) → Type 0
SameButPrices t u =
    (u.listings ≡ t.listings) × (u.properties ≡ t.properties) × (u.localities ≡ t.localities)

opened_kept :
    (listing_id price org : ℕ) (user : Option ℕ) (u : Tables)
    → SameButPrices u (opened (record_price_change listing_id price user org u) listing_id u).tables
unfolding record_price_change
opened_kept listing_id price org user u =
    elim (Bool-cases (any (writable listing_id org) u.listings && user_exists user u)) [
      | inl allowed ↦ rw (allowed) (refl, refl, refl)
      | inr refused ↦ rw (refused) (refl, refl, refl)
    ]

listed_row :
    (dto : CreateListingDto) (principal : Principal) (property_id : ℕ) (m : Moment) (u : Tables)
    → let input = write_input dto principal property_id in
      let out =
        (listed
          (create_listing input principal.organization_id m.listing_id m.now u)
          dto
          principal
          m
          u).tables in
      (out.listings ≡ u.listings)
      ⊎ ((out.listings ≡ new_listing input m.listing_id m.now ∷ u.listings)
          × (out.properties ≡ u.properties)
          × (out.localities ≡ u.localities))
unfolding create_listing
listed_row dto principal property_id m u =
    let input = write_input dto principal property_id in
    let org = principal.organization_id in
    let row = new_listing input m.listing_id m.now in
    let v : Tables = record u { listings = row ∷ u.listings } in
    elim (Bool-cases (
      input.organization_id == org
      && any (λ p. p.id == property_id) u.properties
      && user_exists (some principal.user_id) u
      && listing_checks row)) [
        | inr refused ↦ rw (refused) (inl refl)
        | inl accepted ↦
            let kept = opened_kept m.listing_id dto.price org (some principal.user_id) v in
            rw (accepted) (inr kept)
      ]

joined_at :
    (l : ListingRow) (p : PropertyRow) (loc : LocalityRow) (t : Tables)
    → find (λ q. q.id == l.property_id) t.properties ≡ some p
    → find (λ x. x.id == p.columns.locality_id) t.localities ≡ some loc
    → joined t l ≡ some record { listing = l; property = p; locality = loc }
unfolding joined
joined_at l p loc t e1 e2 = ap (λ o. joined_property l o t) e1 ∙ ap (λ o. joined_locality l p o) e2

create_gate-none :
    (dto : CreateListingDto) (org today : ℕ) (t : Tables) (loc : LocalityRow)
    → find (is_named dto.city_slug dto.locality_slug) t.localities ≡ some loc
    → is_active (status_of dto) ≡ true
    → create_gate dto org today t ≡ none
    → is_some (find_valid org loc.city.state today t.registrations) ≡ true
unfolding create_gate state_for_locality assert_publishable
create_gate-none dto org today t loc found on open_ =
    refusal-none (find_valid org loc.city.state today t.registrations)
      (sym (ap (λ o. publishable_in (city_state o) org today t) found) ∙ (rw (on) at open_))

not_longer : (l : ListingRow) (ls : List ListingRow) → ls ≢ l ∷ ls
not_longer l ls e = omega (arith, ap length e)

published :
    (dto : CreateListingDto) (principal : Principal) (m : Moment) (t u : Tables) (l : ListingRow)
    → (loc : LocalityRow) (pid : ℕ) → IsKeyed (λ (x : LocalityRow). x.id) t.localities
    → IsKeyed (λ (x : PropertyRow). x.id) t.properties
    → find (is_named dto.city_slug dto.locality_slug) t.localities ≡ some loc
    → create_gate dto principal.organization_id m.today t ≡ none
    → find_or_create (property_input dto loc.id) m.property_id t ≡ ok (pid, u)
    → (placed (ok (pid, u)) dto principal m t).tables.listings ≡ l ∷ t.listings
    → is_active l.status ≡ true
    → (j : Joined) × (joined (placed (ok (pid, u)) dto principal m t).tables l ≡ some j)
      × IsRegistered principal.organization_id m.today t j
published dto principal m t u l loc pid keyed_loc keyed_prop named open_ done longer on =
    let place =
      find_or_create-place (property_input dto loc.id) m.property_id pid t u keyed_prop done in
    let (p, stands, at_loc, same_listings, same_localities) = place in
    let out = (placed (ok (pid, u)) dto principal m t).tables in
    let new = new_listing (write_input dto principal pid) m.listing_id m.now in
    elim (listed_row dto principal pid m u) [
      | inl same ↦ absurd (not_longer l t.listings (sym same_listings ∙ sym same ∙ longer))
      | inr (grown, same_properties, kept_localities) ↦
          let row : new ≡ l =
            some-injective _ _
              (ap (λ (ls : List ListingRow). get_elem? ls 0) (sym grown ∙ longer)) in
          let asked : is_active (status_of dto) ≡ true =
            ap (λ (x : ListingRow). is_active x.status) row ∙ on in
          let pid_is : l.property_id ≡ pid = ap (λ (x : ListingRow). x.property_id) (sym row) in
          let offers : find (λ q. q.id == l.property_id) out.properties ≡ some p =
            (λ i. find (λ q. q.id == pid_is i) (same_properties i)) ∙ stands in
          let key =
            find_key (λ (x : LocalityRow). x.id) (is_named dto.city_slug dto.locality_slug)
              t.localities loc keyed_loc named in
          let lies : find (λ x. x.id == p.columns.locality_id) out.localities ≡ some loc =
            (λ i. find (λ x. x.id == at_loc i) ((kept_localities ∙ same_localities) i)) ∙ key in
          (
            record { listing = l; property = p; locality = loc },
            joined_at l p loc out offers lies,
            create_gate-none dto principal.organization_id m.today t loc named asked open_,
          )
    ]

-- Nothing is published unregistered: a listing that a request creates and that is active stands, by
-- the property it offers, in a jurisdiction for which the organisation of the request holds a
-- registration that is valid on the day, also where that property is a row that an older listing
-- created. The ids of the localities and of the properties are unique.
pub create_publishes-IsRegistered :
    (dto : CreateListingDto) (principal : Principal) (m : Moment) (t : Tables) (l : ListingRow)
    → IsKeyed (λ (x : LocalityRow). x.id) t.localities
    → IsKeyed (λ (x : PropertyRow). x.id) t.properties
    → (create dto principal m t).tables.listings ≡ l ∷ t.listings
    → is_active l.status ≡ true
    → (j : Joined) × (joined (create dto principal m t).tables l ≡ some j)
      × IsRegistered principal.organization_id m.today t j
unfolding create resolve_locality
create_publishes-IsRegistered dto principal m t l keyed_loc keyed_prop longer on =
    let org = principal.organization_id in
    elim (Option-cases (find (is_named dto.city_slug dto.locality_slug) t.localities)) [
      | inl nowhere ↦ absurd (not_longer l t.listings (rw (nowhere) at longer))
      | inr (loc, named) ↦ elim (Option-cases (create_gate dto org m.today t)) [
        | inr (e, shut) ↦ absurd (not_longer l t.listings (rw (named, shut) at longer))
        | inl open_ ↦
            elim (Result-cases (find_or_create (property_input dto loc.id) m.property_id t)) [
              | inr (e, failed) ↦
                  absurd (not_longer l t.listings (rw (named, open_, failed) at longer))
              | inl ((pid, u), done) ↦
                  rw (named, open_, done)
                    (published dto principal m t u l loc pid keyed_loc keyed_prop named open_ done
                      (rw (named, open_, done) at longer) on)
            ]
      ]
    ]
