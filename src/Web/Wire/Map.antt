-- ===== src/Web/Wire/Map.antt =====
-- The search for the map of the search page.
use real_estate_webapp.Prelude.{
  ℕ, ◌≡◌, ◌≤◌, ◌<◌, ◌∙◌, refl, ap, Option, none, some, [], arith, Text,
}
use real_estate_webapp.Catalog.Filters.{ListingSearchParams}
use real_estate_webapp.Web.{ListingQuery}
use real_estate_webapp.Web.Provider.{to_contract_params}
use real_estate_webapp.Web.Wire.{
  SearchResponse, ◌>>=◌, encode, read_in_range, number_field, scalar, validated, search_answered,
  api_search, map_query,
}
use real_estate_webapp.Web.Wire.Sent.{safe_integer}

module _ (read : Text → Option ℕ) (show : ℕ → Text)
    (reads : (n : ℕ) → n ≤ safe_integer → read (show n) ≡ some n) where
  oversized :
      (n : ℕ)
      → 100 < n
      → n ≤ safe_integer
      → number_field read 1 (some 100) (scalar show (some n)) ≡ none
  unfolding number_field
  oversized n large small =
      ap (read_in_range read 1 (some 100)) (reads n small) ∙ ground (arith, large)

  large_page_refused :
      (params : ListingSearchParams) (n : ℕ)
      → params.page_size ≡ some n
      → 100 < n
      → n ≤ safe_integer
      → validated read (encode show params) ≡ none
  unfolding validated encode
  large_page_refused params n asked large small =
      let last : number_field read 1 (some 100) (scalar show params.page_size) ≡ none =
        ap (λ o. number_field read 1 (some 100) (scalar show o)) asked ∙ oversized n large small in
      rw (last)

  -- The map of the search page is empty whatever the catalog holds, when the site runs on the API: the
  -- page asks for 300 listings, the API refuses a request for more than 100, and the site shows a
  -- request that failed as no listings.
  pub map_empty :
      (service : ListingSearchParams → SearchResponse) (query : ListingQuery ℕ)
      → ((api_search read show service (map_query query)).listings ≡ [])
        × ((api_search read show service (map_query query)).total ≡ 0)
  unfolding api_search search_answered to_contract_params
  map_empty service query =
      let refused : validated read (encode show (to_contract_params (map_query query))) ≡ none =
        large_page_refused (to_contract_params (map_query query)) 300 refl (omega arith)
          (omega arith) in
      (
        ap
            (λ o.
              (search_answered (o >>= λ params. some (service params)) (map_query query)).listings)
            refused,
        ap (λ o. (search_answered (o >>= λ params. some (service params)) (map_query query)).total)
            refused,
      )
