-- ===== src/Catalog/Search/Order.antt =====
-- The order of a search: the tiebreak by id leaves one arrangement only.
use real_estate_webapp.Prelude.{
  IsKeyed-rows_where, ℕ, ◌≡◌, ◌∙◌, sym, ap, refl, inl, inr, Bool, false, List, [], ◌∷◌, ◌==◌,
  get_or, Bool-cases, Option-cases, arith, any, IsKeyed, IsOrder, IsOrdered, perm-sort_by,
  sort_by-IsOrdered, sort_by-ordered, sort_by-perm, Permᴰ, Text,
}
use real_estate_webapp.Catalog.{PropertyRow, ListingRow, Tables, is_open}
use real_estate_webapp.Catalog.Offers.{Joined, joined, keep_joined}
use real_estate_webapp.Catalog.Admin.Gate.{joined-listing}
use real_estate_webapp.Catalog.Filters.{
  Point, BoundsDto, ListingSort, newest, price_asc, price_desc, beds_desc, area_desc,
  ListingSearchParams, comparable_area,
}
use real_estate_webapp.Catalog.Search.{
  id_of, listed_at, nulls_last, ascending, descending, order_by, visible_rows, matches, ranking,
}

ascending-IsOrder : (column : Joined → ℕ) → IsOrder (ascending column) id_of
ascending-IsOrder column = record {
  total = λ a b off. ground (arith, off);
  trans = λ a b c ab bc. ground (arith, ab, bc);
  tied = λ a b ab ba. ground (arith, ab, ba);
}

descending-IsOrder : (column : Joined → ℕ) → IsOrder (descending column) id_of
descending-IsOrder column = record {
  total = λ a b off. ground (arith, off);
  trans = λ a b c ab bc. ground (arith, ab, bc);
  tied = λ a b ab ba. ground (arith, ab, ba);
}

pub order_by-IsOrder : (s : ListingSort) → IsOrder (order_by s) id_of
unfolding order_by
order_by-IsOrder newest = descending-IsOrder (λ j. listed_at j.listing)
order_by-IsOrder price_asc = ascending-IsOrder (λ j. j.listing.price)
order_by-IsOrder price_desc = descending-IsOrder (λ j. j.listing.price)
order_by-IsOrder beds_desc = descending-IsOrder (λ j. nulls_last j.property.columns.bedrooms)
order_by-IsOrder area_desc = descending-IsOrder (λ j. nulls_last (comparable_area j.property))

any-keep_joined :
    (t : Tables) (l : ListingRow) (k : ℕ) (js : List Joined)
    → l.id == k ≡ false
    → any (λ j. id_of j == k) js ≡ false
    → any (λ j. id_of j == k) (keep_joined (joined t l) js) ≡ false
unfolding any
any-keep_joined t l k js other rest = elim (Option-cases (joined t l)) [
  | inl absent ↦ rw (absent) rest
  | inr (j, there) ↦
      let id : id_of j ≡ l.id = ap (λ (x : ListingRow). x.id) (joined-listing t l j there) in
      rw (there) (ground (arith, id, other, rest))
]

any-visible_rows :
    (t : Tables) (k : ℕ) (ls : List ListingRow)
    → any (λ l. l.id == k) ls ≡ false
    → any (λ j. id_of j == k) (visible_rows t ls) ≡ false
unfolding any visible_rows
any-visible_rows t k [] h = refl
any-visible_rows t k (l ∷ ls) h =
    let rest = any-visible_rows t k ls (ground (arith, h)) in
    elim (Bool-cases (is_open t l)) [
      | inl shown ↦ rw (shown) (any-keep_joined t l k (visible_rows t ls) (ground (arith, h)) rest)
      | inr hidden ↦ rw (hidden) rest
    ]

IsKeyed-visible_rows :
    (t : Tables) (ls : List ListingRow)
    → IsKeyed (λ (l : ListingRow). l.id) ls
    → IsKeyed id_of (visible_rows t ls)
unfolding visible_rows
IsKeyed-visible_rows t [] k = tt
IsKeyed-visible_rows t (l ∷ ls) (fresh, k) =
    let rest = IsKeyed-visible_rows t ls k in
    elim (Bool-cases (is_open t l)) [
      | inr hidden ↦ rw (hidden) rest
      | inl shown ↦ elim (Option-cases (joined t l)) [
        | inl absent ↦ rw (shown, absent) rest
        | inr (j, there) ↦
            let id : l.id ≡ id_of j =
              ap (λ (x : ListingRow). x.id) (sym (joined-listing t l j there)) in
            let new =
              ap (λ (n : ℕ). any (λ i. id_of i == n) (visible_rows t ls)) (sym id)
              ∙ any-visible_rows t l.id ls fresh in
            rw (shown, there) (new, rest)
      ]
    ]

module _ (matches_text : Text → Joined → Bool) (in_bounds : BoundsDto → PropertyRow → Bool)
    (in_polygon : List Point → PropertyRow → Bool) where
  pub matches-IsKeyed :
      (params : ListingSearchParams) (t : Tables)
      → IsKeyed (λ (l : ListingRow). l.id) t.listings
      → IsKeyed id_of (matches matches_text in_bounds in_polygon params t)
  unfolding matches
  matches-IsKeyed params t keyed =
      IsKeyed-rows_where id_of _ (visible_rows t t.listings)
        (IsKeyed-visible_rows t t.listings keyed)

  -- The ranking is what its query asks for: it holds every match once, and each row stands before all
  -- that follow it in the order of the request.
  pub ranking-IsOrdered :
      (params : ListingSearchParams) (t : Tables)
      → Permᴰ
          (ranking matches_text in_bounds in_polygon params t)
          (matches matches_text in_bounds in_polygon params t)
        × IsOrdered
            (order_by (get_or params.sort newest))
            (ranking matches_text in_bounds in_polygon params t)
  unfolding ranking
  ranking-IsOrdered params t =
      let s = order_by (get_or params.sort newest) in
      let found = matches matches_text in_bounds in_polygon params t in
      (
        perm-sort_by s found,
        sort_by-IsOrdered s id_of (order_by-IsOrder (get_or params.sort newest)) found,
      )

  -- The ranking is the only arrangement that its query allows: any list that holds every match once and
  -- is in the order of the request equals it, whatever way the database has of sorting. The ids of the
  -- listings are unique.
  pub ranking_unique :
      (params : ListingSearchParams) (t : Tables) (rows : List Joined)
      → IsKeyed (λ (l : ListingRow). l.id) t.listings
      → Permᴰ (matches matches_text in_bounds in_polygon params t) rows
      → IsOrdered (order_by (get_or params.sort newest)) rows
      → ranking matches_text in_bounds in_polygon params t ≡ rows
  unfolding ranking
  ranking_unique params t rows keyed same ordered =
      let s = order_by (get_or params.sort newest) in
      sort_by-perm s id_of (order_by-IsOrder (get_or params.sort newest)) same
        (matches-IsKeyed params t keyed)
      ∙ sort_by-ordered s rows ordered
