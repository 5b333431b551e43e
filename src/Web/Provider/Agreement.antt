-- ===== src/Web/Provider/Agreement.antt =====
-- Where the search over the sample data and the search of the API agree, row by row.
use real_estate_webapp.Prelude.{
  ℕ, ◌≡◌, ◌∙◌, sym, ap, refl, Bool, true, false, ◌&&◌, none, some, List, [], ◌==◌, arith, any,
  get_or, Text, text_eq,
}
use real_estate_webapp.Catalog.{PropertyRow, Tables}
use real_estate_webapp.Catalog.Vocabulary.{
  PropertyTypeDto, ListingStatusDto, property_type_to_db, db_to_property_type, db_to_status,
  possession_to_db, db_to_possession,
}
use real_estate_webapp.Catalog.Offers.{Joined}
use real_estate_webapp.Catalog.Filters.{
  LocalityRefDto, Point, BoundsDto, property_type_number, possession_number, and_all, given,
  at_least, at_most, comparable_area, filters,
}
use real_estate_webapp.Catalog.Mapper.{Names, ListingDto, dto_of, to_listing_dto}
use real_estate_webapp.Catalog.Mapper.Shown.{mapped}
use real_estate_webapp.Web.{ListingQuery}
use real_estate_webapp.Web.Query.{property_type_word, possession_word}
use real_estate_webapp.Web.Provider.{
  to_listing, to_contract_params, comparable_sqft, from, up_to, matches,
}
use real_estate_webapp.Web.Provider.Filters.{
  All-of_each, any_given-among, either_given-among, has_features-every_listed, given-from,
  given-up_to, given-known_from, given-none_or,
}
use real_estate_webapp.Web.Provider.Ranks.{
  is_villa, agree_status, All-map_types, no_villa, agree_possession, agree_furnishing,
}
use real_estate_webapp.Web.Provider.Areas.{comparable_same}

-- The two searches make their tests in different orders.
reorder :
    (c l s a b d e y n u v k o f t : Bool)
    → s
        && (c
            && (l
                && (a
                    && (b
                        && (d
                            && (e
                                && (u
                                    && (v && (y && (k && (o && (f && (n && (t && true))))))))))))))
      ≡ c
        && (l
            && (s
                && (a
                    && (b
                        && (d
                            && (e
                                && (y
                                    && (n && (u && (v && (k && (o && (f && (t && true))))))))))))))
reorder c l s a b d e y n u v k o f t = ground arith

combine :
    {c l s a b d e y n u v k o f t c' l' s' a' b' d' e' y' n' u' v' k' o' f' t' : Bool}
    → c ≡ c'
    → l ≡ l'
    → s ≡ s'
    → a ≡ a'
    → b ≡ b'
    → d ≡ d'
    → e ≡ e'
    → y ≡ y'
    → n ≡ n'
    → u ≡ u'
    → v ≡ v'
    → k ≡ k'
    → o ≡ o'
    → f ≡ f'
    → t ≡ t'
    → c
        && (l
            && (s
                && (a
                    && (b
                        && (d
                            && (e
                                && (y
                                    && (n && (u && (v && (k && (o && (f && (t && true))))))))))))))
      ≡ s'
        && (c'
            && (l'
                && (a'
                    && (b'
                        && (d'
                            && (e'
                                && (u'
                                    && (v'
                                        && (y'
                                            && (k' && (o' && (f' && (n' && (t' && true))))))))))))))
combine {c' = c'} {l' = l'} {s' = s'} {a' = a'} {b' = b'} {d' = d'} {e' = e'} {y' = y'} {n' = n'}
      {u' = u'} {v' = v'} {k' = k'} {o' = o'} {f' = f'} {t' = t'} hc hl hs ha hb hd he hy hn hu hv
      hk ho hf ht =
    (λ i.
      hc i
      && (hl i
          && (hs i
              && (ha i
                  && (hb i
                      && (hd i
                          && (he i
                              && (hy i
                                  && (hn i
                                      && (hu i
                                          && (hv i
                                              && (hk i
                                                  && (ho i && (hf i && (ht i && true)))))))))))))))
    ∙ sym (reorder c' l' s' a' b' d' e' y' n' u' v' k' o' f' t')

module _ (matches_text : Text → Joined → Bool) (in_bounds : BoundsDto → PropertyRow → Bool)
    (in_polygon : List Point → PropertyRow → Bool) (lower : Text → Text) where
  agree :
      (now : ℕ) (names : Names) (t : Tables) (j : Joined) (s : ListingStatusDto)
      (k : PropertyTypeDto)
      → (q : ListingQuery ℕ) (a : ℕ) → db_to_status j.listing.status ≡ some s
      → db_to_property_type j.property.columns.property_type ≡ some k
      → q.q ≡ none
      → comparable_area j.property ≡ some a
      → any is_villa (get_or q.property_types []) ≡ false
      → matches lower (to_listing (dto_of now names t j s k)) q
        ≡ filters matches_text in_bounds in_polygon (to_contract_params q) j
  unfolding matches filters to_contract_params and_all dto_of
  agree now names t j s k q a st ty silent sized no_villas =
      let l = j.listing in
      let p = j.property.columns in
      let whole = to_listing (dto_of now names t j s k) in
      let sqft : comparable_sqft whole ≡ a =
        comparable_same now names t j s k ∙ ap (λ o. get_or o 0) sized in
      let status = agree_status l.status s q.status st in
      let kinds =
        any_given-among
          (λ x.
            property_type_number p.property_type == property_type_number (property_type_to_db x))
          (λ x. text_eq (property_type_word x) (property_type_word k)) q.property_types
          (All-map_types p.property_type k ty (get_or q.property_types [])
            (no_villa (get_or q.property_types []) no_villas)) in
      let cities =
        any_given-among (text_eq j.locality.city.slug) (text_eq j.locality.city.slug) q.city_slugs
          (All-of_each _ (λ x. refl) (get_or q.city_slugs [])) in
      let places =
        either_given-among
          (λ (ref : LocalityRefDto).
            text_eq j.locality.city.slug ref.city_slug && text_eq j.locality.slug ref.locality_slug)
          q.localities in
      let floor_price = given-from q.min_price l.price in
      let top_price = given-up_to q.max_price l.price in
      let beds = given-known_from q.min_beds p.bedrooms in
      let baths = given-known_from q.min_baths p.bathrooms in
      let year = given-known_from q.min_year_built p.year_built in
      let upkeep = given-none_or q.max_maintenance l.maintenance_monthly in
      let least =
        ap (λ o. given q.min_sqft (at_least o)) sized
        ∙ given-from q.min_sqft a
        ∙ ap (from q.min_sqft) (sym sqft) in
      let most =
        ap (λ o. given q.max_sqft (at_most o)) sized
        ∙ given-up_to q.max_sqft a
        ∙ ap (up_to q.max_sqft) (sym sqft) in
      let possession =
        any_given-among
          (λ x. possession_number l.possession == possession_number (possession_to_db x))
          (λ x. text_eq (possession_word x) (possession_word (db_to_possession l.possession)))
          q.possession (All-of_each _ (agree_possession l.possession) (get_or q.possession [])) in
      let furnished = agree_furnishing l.furnishing q.furnishing in
      let features = has_features-every_listed (get_or q.features []) l.features in
      sym (
        (λ i.
          filters matches_text in_bounds in_polygon (record (to_contract_params q) { q = silent i })
            j)
        ∙ combine cities places status floor_price top_price beds baths year upkeep least most kinds
            possession furnished features
        ∙ sym (λ i. matches lower whole (record q { q = silent i })))

  -- A listing of the API passes the site's own filters exactly if it passes the filters of the API,
  -- which gets the query as the site sends it: every filter but the text search and the drawn areas.
  -- The listing has an area that is known, and the query does not ask for villas.
  pub matches-filters :
      (now : ℕ) (names : Joined → Names) (t : Tables) (j : Joined) (d : ListingDto)
      → (q : ListingQuery ℕ) (a : ℕ) → to_listing_dto now names t j ≡ some d
      → q.q ≡ none
      → comparable_area j.property ≡ some a
      → any is_villa (get_or q.property_types []) ≡ false
      → matches lower (to_listing d) q
        ≡ filters matches_text in_bounds in_polygon (to_contract_params q) j
  matches-filters now names t j d q a shown silent sized no_villas =
      let (s, k, st, ty, same) = mapped now names t j d shown in
      ap (λ x. matches lower (to_listing x) q) same
      ∙ agree now (names j) t j s k q a st ty silent sized no_villas
