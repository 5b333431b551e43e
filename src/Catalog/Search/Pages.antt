-- ===== src/Catalog/Search/Pages.antt =====
-- The pages of a search: what they add up to.
use real_estate_webapp.Prelude.{
  ℕ, zero, suc, ◌+◌, ◌-◌, ◌*◌, ◌≤◌, ◌≡◌, ◌∙◌, ap, refl, Bool, max, some, List, [], ◌++◌, arith,
  length, length-sort_by, take, drop, take-append_drop, take-all, Text,
}
use real_estate_webapp.Catalog.{PropertyRow, Tables}
use real_estate_webapp.Catalog.Offers.{Joined}
use real_estate_webapp.Catalog.Filters.{Point, BoundsDto, ListingSearchParams, filters}
use real_estate_webapp.Catalog.Search.{
  SearchResult, page_size_of, total_of, matches, ranking, search,
}

abbrev result : (page found : List Joined) → SearchResult
result page found = record { rows = page; total = total_of page found }

module _ (matches_text : Text → Joined → Bool) (in_bounds : BoundsDto → PropertyRow → Bool)
    (in_polygon : List Point → PropertyRow → Bool) where
  length-ranking :
      (params : ListingSearchParams) (t : Tables)
      → length (ranking matches_text in_bounds in_polygon params t)
        ≡ length (matches matches_text in_bounds in_polygon params t)
  unfolding ranking
  length-ranking params t = length-sort_by _ _

  -- The request for another page of the same search.
  abbrev pub at_page : ℕ → ListingSearchParams → ListingSearchParams
  at_page n params = record params { page = some n }

  -- The first pages, one behind the other.
  unfoldable pub first_pages : ℕ → ListingSearchParams → Tables → List Joined
  first_pages zero params t = []
  first_pages (suc n) params t =
      first_pages n params t
      ++ (search matches_text in_bounds in_polygon (at_page (suc n) params) t).rows

  ranking-at_page :
      (n : ℕ) (params : ListingSearchParams) (t : Tables)
      → ranking matches_text in_bounds in_polygon (at_page n params) t
        ≡ ranking matches_text in_bounds in_polygon params t
  unfolding ranking matches filters
  ranking-at_page n params t = refl

  page_rows :
      (n : ℕ) (params : ListingSearchParams) (t : Tables)
      → (search matches_text in_bounds in_polygon (at_page (suc n) params) t).rows
        ≡ take
            (page_size_of params)
            (drop (n * page_size_of params) (ranking matches_text in_bounds in_polygon params t))
  unfolding search
  page_rows n params t =
      let before : (max 1 (suc n) - 1) * page_size_of params ≡ n * page_size_of params =
        ap (λ (k : ℕ). k * page_size_of params) (omega arith) in
      λ i. take (page_size_of params) (drop (before i) (ranking-at_page (suc n) params t i))

  first_pages-take :
      (n : ℕ) (params : ListingSearchParams) (t : Tables)
      → first_pages n params t
        ≡ take (n * page_size_of params) (ranking matches_text in_bounds in_polygon params t)
  unfolding first_pages take
  first_pages-take zero params t =
      let nothing : 0 ≡ 0 * page_size_of params = omega arith in
      ap (λ (k : ℕ). take k (ranking matches_text in_bounds in_polygon params t)) nothing
  first_pages-take (suc n) params t =
      let size = page_size_of params in
      let found = ranking matches_text in_bounds in_polygon params t in
      let more : n * size + size ≡ suc n * size = omega arith in
      (λ i. first_pages-take n params t i ++ page_rows n params t i)
      ∙ take-append_drop (n * size) size found
      ∙ ap (λ (k : ℕ). take k found) more

  -- Paging shows every match exactly once: once the pages have room for all matches, the pages, one
  -- behind the other, are the ranking, with no listing skipped between two pages and none repeated.
  pub pages_cover :
      (n : ℕ) (params : ListingSearchParams) (t : Tables)
      → length (matches matches_text in_bounds in_polygon params t) ≤ n * page_size_of params
      → first_pages n params t ≡ ranking matches_text in_bounds in_polygon params t
  pages_cover n params t room =
      first_pages-take n params t
      ∙ take-all (n * page_size_of params) (ranking matches_text in_bounds in_polygon params t)
          (omega (arith, room, length-ranking params t))
