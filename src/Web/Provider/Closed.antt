-- ===== src/Web/Provider/Closed.antt =====
-- The searches for which the buyer chooses no status: closed deals.
use real_estate_webapp.Prelude.{
  ℕ, ◌≡◌, ◌∙◌, sym, ap, subst, refl, Bool, true, false, none, some, some-injective, List, [], arith,
  any, get_or, Text, text_eq,
}
use real_estate_webapp.Catalog as Catalog
use real_estate_webapp.Catalog.{
  PropertyRow, AreaBasis, plot_basis, built_up_basis, carpet_basis, PropertyInput, Tables,
}
use real_estate_webapp.Catalog.Vocabulary.{ListingStatusDto, db_to_status}
use real_estate_webapp.Catalog.Offers.{Joined}
use real_estate_webapp.Catalog.Filters.{Point, BoundsDto, and_all, comparable_area, filters}
use real_estate_webapp.Catalog.Mapper.{Names, ListingDto, dto_of, to_listing_dto}
use real_estate_webapp.Catalog.Mapper.Shown.{mapped}
use real_estate_webapp.Web.{ListingQuery}
use real_estate_webapp.Web.Query.{status_word}
use real_estate_webapp.Web.Provider.{
  status_from_dto, to_listing, to_contract_params, among, matches,
}
use real_estate_webapp.Web.Provider.Ranks.{is_villa}
use real_estate_webapp.Web.Provider.Agreement.{matches-filters}
use real_estate_webapp.Web.Provider.{effective, for_sale_statuses}

closed_word :
    (st : Catalog.ListingStatus) (s : ListingStatusDto)
    → Catalog.is_closed st ≡ true
    → db_to_status st ≡ some s
    → among
        (some for_sale_statuses)
        (λ x. text_eq (status_word x) (status_word (status_from_dto s)))
      ≡ false
unfolding db_to_status any text_eq
closed_word Catalog.ListingStatus.sold s closed st =
    subst
      (λ x.
        among (some for_sale_statuses)
          (λ y. text_eq (status_word y) (status_word (status_from_dto x)))
        ≡ false)
      (some-injective ListingStatusDto.sold s st) refl
closed_word Catalog.ListingStatus.rented s closed st =
    subst
      (λ x.
        among (some for_sale_statuses)
          (λ y. text_eq (status_word y) (status_word (status_from_dto x)))
        ≡ false)
      (some-injective ListingStatusDto.rented s st) refl
closed_word Catalog.ListingStatus.active s closed st = ground (arith, closed)
closed_word Catalog.ListingStatus.under_offer s closed st = ground (arith, closed)
closed_word Catalog.ListingStatus.draft s closed st = ground (arith, closed)
closed_word Catalog.ListingStatus.pending_review s closed st = ground (arith, closed)
closed_word Catalog.ListingStatus.withdrawn s closed st = ground (arith, closed)
closed_word Catalog.ListingStatus.expired s closed st = ground (arith, closed)
closed_word Catalog.ListingStatus.rejected s closed st = ground (arith, closed)

module _ (matches_text : Text → Joined → Bool) (in_bounds : BoundsDto → PropertyRow → Bool)
    (in_polygon : List Point → PropertyRow → Bool) (lower : Text → Text) where
  -- Where the buyer chooses no status, the two searches part on closed deals: a sold or rented listing
  -- that passes the other filters of the query passes the filters of the API, and the search over the
  -- sample data leaves it out. The query has no text and asks for no villas, and the listing has an
  -- area that is known.
  pub closed_deals_differ :
      (now : ℕ) (names : Joined → Names) (t : Tables) (j : Joined) (d : ListingDto)
      → (q : ListingQuery ℕ) (a : ℕ) → to_listing_dto now names t j ≡ some d
      → q.q ≡ none
      → comparable_area j.property ≡ some a
      → any is_villa (get_or q.property_types []) ≡ false
      → q.status ≡ none
      → Catalog.is_closed j.listing.status ≡ true
      → matches lower (to_listing d) q ≡ true
      → (filters matches_text in_bounds in_polygon (to_contract_params q) j ≡ true)
        × (matches lower (to_listing d) (effective q) ≡ false)
  unfolding matches effective dto_of and_all
  closed_deals_differ now names t j d q a shown silent sized no_villas free closed fits = (
    sym (
          matches-filters matches_text in_bounds in_polygon lower now names t j d q a shown silent
            sized no_villas)
        ∙ fits,
    let (s, k, st, ty, same) = mapped now names t j d shown in
        ap (λ x. matches lower (to_listing x) (effective q)) same
        ∙ (λ i.
            matches lower (to_listing (dto_of now (names j) t j s k))
              (record q { status = some (get_or (free i) for_sale_statuses) }))
        ∙ (rw (closed_word j.listing.status s closed st)),
  )
