-- ===== src/Catalog/Search/Scope.antt =====
-- What the public catalog lets a visitor see.
use real_estate_webapp.Prelude.{
  ℕ, ◌-◌, ◌*◌, ◌≡◌, ◌∙◌, sym, subst, refl, ◌⊎◌, inl, inr, Bool, true, false, ◌&&◌, ◌||◌, none, some,
  some-injective, none-ne-some, List, [], ◌∷◌, ◌==◌, get_or, Bool-cases, Option-cases, arith, any,
  find, sort_by, All, All-take, All-drop, All-rows_where_kept, All-sort_by, get_elem?, zero, suc,
  Text,
}
use real_estate_webapp.Catalog.{
  ListingStatus, ListingVisibility, PropertyRow, ListingRow, ReraRow, Tables, active, under_offer,
  draft, pending_review, sold, rented, withdrawn, expired, rejected, network_only, private_,
  public_, is_public, is_active, is_under_offer, is_closed, is_open,
}
use real_estate_webapp.Catalog.Offers.{Joined, joined}
use real_estate_webapp.Catalog.Admin.Gate.{joined-listing}
use real_estate_webapp.Catalog.Filters.{Point, BoundsDto, newest, ListingSearchParams, and_all}
use real_estate_webapp.Catalog.Search.{
  page_of, page_size_of, order_by, visible_rows, matches, ranking, search,
}
use real_estate_webapp.Catalog.Search.Order.{order_by-IsOrder}

-- A public listing that is live or under offer, or a closed deal of the host's own.
abbrev pub IsAdvertised : Tables → ListingRow → Type 0
IsAdvertised t l =
    (l.visibility ≡ public_)
    × ((l.status ≡ active)
        ⊎ (l.status ≡ under_offer)
        ⊎ ((is_closed l.status ≡ true)
            × (any (λ o. o.id == l.organization_id && o.is_host) t.organizations ≡ true)))

advertised :
    (visibility : ListingVisibility) (status : ListingStatus) (host : Bool)
    → is_public visibility
        && (is_active status || is_under_offer status || (is_closed status && host))
      ≡ true
    → (visibility ≡ public_)
      × ((status ≡ active) ⊎ (status ≡ under_offer) ⊎ ((is_closed status ≡ true) × (host ≡ true)))
advertised public_ active host h = (refl, inl refl)
advertised public_ under_offer host h = (refl, inr (inl refl))
advertised public_ sold host h = (refl, inr (inr (refl, h)))
advertised public_ rented host h = (refl, inr (inr (refl, h)))
advertised public_ draft host h = ground (arith, h)
advertised public_ pending_review host h = ground (arith, h)
advertised public_ withdrawn host h = ground (arith, h)
advertised public_ expired host h = ground (arith, h)
advertised public_ rejected host h = ground (arith, h)
advertised network_only status host h = ground (arith, h)
advertised private_ status host h = ground (arith, h)

All-visible_rows :
    (t : Tables) (ls : List ListingRow)
    → All (λ (j : Joined). IsAdvertised t j.listing) (visible_rows t ls)
unfolding visible_rows
All-visible_rows t [] = tt
All-visible_rows t (l ∷ ls) = elim (Bool-cases (is_open t l)) [
  | inr hidden ↦ rw (hidden) (All-visible_rows t ls)
  | inl shown ↦ elim (Option-cases (joined t l)) [
    | inl absent ↦ rw (shown, absent) (All-visible_rows t ls)
    | inr (j, there) ↦
        rw (shown, there)
          (
            subst (IsAdvertised t) (sym (joined-listing t l j there))
                (advertised l.visibility l.status _ shown),
            All-visible_rows t ls,
          )
  ]
]

and_right : (a b : Bool) → a && b ≡ true → b ≡ true
and_right a b h = ground (arith, h)

and_all-nth :
    (bs : List Bool) (i : ℕ) (b : Bool) → and_all bs ≡ true → get_elem? bs i ≡ some b → b ≡ true
unfolding and_all
and_all-nth [] i b h e = absurd (none-ne-some b e)
and_all-nth (c ∷ bs) zero b h e = sym (some-injective _ _ e) ∙ ground (arith, h)
and_all-nth (c ∷ bs) (suc i) b h e = and_all-nth bs i b (and_right c (and_all bs) h) e

module _ (matches_text : Text → Joined → Bool) (in_bounds : BoundsDto → PropertyRow → Bool)
    (in_polygon : List Point → PropertyRow → Bool) where
  on_page :
      (P : Joined → Type 0) (params : ListingSearchParams) (t : Tables)
      → All P (matches matches_text in_bounds in_polygon params t)
      → All P (search matches_text in_bounds in_polygon params t).rows
  unfolding search ranking
  on_page P params t h =
      let s = order_by (get_or params.sort newest) in
      let found = matches matches_text in_bounds in_polygon params t in
      All-take P (page_size_of params) _ (
        All-drop P ((page_of params - 1) * page_size_of params) (sort_by s found) (
          All-sort_by s (λ j. j.listing.id) (order_by-IsOrder (get_or params.sort newest)) P found
            h))

  -- Whatever a visitor searches for, every row of the answer is a public listing that is live or under
  -- offer, or a sold or rented one of the host organisation: no draft and no listing under review, and
  -- no deal of a partner.
  pub search-IsAdvertised :
      (params : ListingSearchParams) (t : Tables)
      → All
          (λ (j : Joined). IsAdvertised t j.listing)
          (search matches_text in_bounds in_polygon params t).rows
  unfolding matches
  search-IsAdvertised params t =
      on_page (λ (j : Joined). IsAdvertised t j.listing) params t
        (All-rows_where_kept (λ (j : Joined). IsAdvertised t j.listing) _
          (visible_rows t t.listings) (All-visible_rows t t.listings))

first_is_expired :
    (p live : ReraRow → Bool) (rows : List ReraRow)
    → any p rows ≡ true
    → find (λ r. p r && live r) rows ≡ none
    → (r : ReraRow) × (find p rows ≡ some r) × (live r ≡ false)
unfolding find any
first_is_expired p live [] held e = ground (arith, held)
first_is_expired p live (r ∷ rows) held e = elim (Bool-cases (p r)) [
  | inl hit ↦ elim (Bool-cases (live r)) [
    | inl on ↦ absurd (none-ne-some r (sym (rw (hit, on) at e)))
    | inr off ↦ rw (hit) (r, refl, off)
  ]
  | inr miss ↦ rw (miss) (first_is_expired p live rows (rw (miss) at held) (rw (miss) at e))
]
