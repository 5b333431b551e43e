-- ===== src/Catalog/Admin/Prices/History.antt =====
-- The entries of the price history for one listing, and what a change of a price does to them.
use real_estate_webapp.Prelude.{
  ℕ, ◌≡◌, ◌∙◌, sym, ap, subst, ◌⊎◌, inl, inr, Bool, true, false, Option, none, some, some-injective,
  List, ◌∷◌, ◌==◌, if◌then◌else◌, Bool-cases, get_or, arith, find, find_holds, get_elem?, IsKeyed,
  find_key, find_at,
}
use real_estate_webapp.Catalog.{ListingRow, PriceRow, Tables}
use real_estate_webapp.Catalog.Offers.{ListingPatch, patched, writable}

abbrev price_of : Option PriceRow → Option ℕ
price_of none = none
price_of (some h) = some h.price

-- The price of the newest entry for a listing.
unfoldable pub latest_price : (listing_id : ℕ) → List PriceRow → Option ℕ
latest_price listing_id history = price_of (find (λ h. h.listing_id == listing_id) history)

abbrev pub IsPriced : List PriceRow → ListingRow → Type 0
IsPriced history l = latest_price l.id history ≡ some l.price

latest_price-cons :
    (listing_id : ℕ) (h : PriceRow) (history : List PriceRow)
    → latest_price listing_id (h ∷ history)
      ≡ (if h.listing_id == listing_id then some h.price else latest_price listing_id history)
unfolding latest_price find
latest_price-cons listing_id h history = ground arith

-- A listing of the same id is the one that was written.
same_row :
    (listing_id org i : ℕ) (x row : ListingRow) (ls : List ListingRow)
    → IsKeyed (λ (l : ListingRow). l.id) ls
    → get_elem? ls i ≡ some x
    → find (writable listing_id org) ls ≡ some row
    → x.id == listing_id ≡ true
    → x ≡ row
same_row listing_id org i x row ls keyed e found id =
    let ours = find_holds (writable listing_id org) ls row found in
    let row_id : row.id ≡ listing_id = ground (arith, ours) in
    let x_id : x.id ≡ listing_id = ground (arith, id) in
    let key = find_key (λ (l : ListingRow). l.id) (writable listing_id org) ls row keyed found in
    let at =
      find_at (λ (l : ListingRow). l.id) (λ y. y.id == row.id) ls i x keyed e
        (ground (arith, row_id, x_id)) (λ y on. ground (arith, on, row_id, x_id)) in
    some-injective _ _ (sym at ∙ key)

-- Where no price is recorded, every row still asks its newest price.
IsPriced-kept :
    (listing_id org now i : ℕ) (patch : ListingPatch) (row x : ListingRow) (t : Tables)
    → (history : List PriceRow) → IsKeyed (λ (l : ListingRow). l.id) t.listings
    → get_elem? t.listings i ≡ some x
    → find (writable listing_id org) t.listings ≡ some row
    → IsPriced t.price_history x
    → history ≡ t.price_history
    → get_or patch.price row.price ≡ row.price
    → IsPriced history (if writable listing_id org x then patched patch now x else x)
unfolding patched
IsPriced-kept listing_id org now i patch row x t history keyed e found priced same kept =
    let goal = λ (b : Bool). IsPriced history (if b then patched patch now x else x) in
    let still : latest_price x.id history ≡ some x.price = ap (latest_price x.id) same ∙ priced in
    elim (Bool-cases (writable listing_id org x)) [
      | inl ours ↦
          let is_row : x ≡ row =
            same_row listing_id org i x row t.listings keyed e found (ground (arith, ours)) in
          let keeps : get_or patch.price x.price ≡ x.price =
            ap (λ (l : ListingRow). get_or patch.price l.price) is_row
            ∙ kept
            ∙ ap (λ (l : ListingRow). l.price) (sym is_row) in
          subst goal (sym ours) (still ∙ ap some (sym keeps))
      | inr theirs ↦ subst goal (sym theirs) still
    ]

-- Where the new price is recorded, the row that was changed asks it, and no other row has it.
IsPriced-moved :
    (listing_id org now i : ℕ) (patch : ListingPatch) (row x : ListingRow) (t : Tables)
    → (h : PriceRow) → IsKeyed (λ (l : ListingRow). l.id) t.listings
    → get_elem? t.listings i ≡ some x
    → find (writable listing_id org) t.listings ≡ some row
    → IsPriced t.price_history x
    → h.listing_id ≡ listing_id
    → patch.price ≡ some h.price
    → IsPriced (h ∷ t.price_history) (if writable listing_id org x then patched patch now x else x)
unfolding patched
IsPriced-moved listing_id org now i patch row x t h keyed e found priced id price =
    let goal =
      λ (b : Bool). IsPriced (h ∷ t.price_history) (if b then patched patch now x else x) in
    let newest = latest_price-cons x.id h t.price_history in
    let chosen = λ (b : Bool). if b then some h.price else latest_price x.id t.price_history in
    elim (Bool-cases (writable listing_id org x)) [
      | inl ours ↦
          let hit : h.listing_id == x.id ≡ true = ground (arith, ours, id) in
          let asks : get_or patch.price x.price ≡ h.price = ap (λ o. get_or o x.price) price in
          subst goal (sym ours) (newest ∙ ap chosen hit ∙ ap some (sym asks))
      | inr theirs ↦ elim (Bool-cases (h.listing_id == x.id)) [
        | inr miss ↦ subst goal (sym theirs) (newest ∙ ap chosen miss ∙ priced)
        | inl hit ↦
            let is_row : x ≡ row =
              same_row listing_id org i x row t.listings keyed e found (ground (arith, hit, id)) in
            let ours = find_holds (writable listing_id org) t.listings row found in
            let theirs_row : writable listing_id org row ≡ false =
              ap (writable listing_id org) (sym is_row) ∙ theirs in
            ground (arith, ours, theirs_row)
      ]
    ]

-- A row of the table after the update asks its newest price.
pub IsPriced-after :
    (listing_id org now i : ℕ) (patch : ListingPatch) (row x : ListingRow) (t : Tables)
    → (history : List PriceRow) → IsKeyed (λ (l : ListingRow). l.id) t.listings
    → get_elem? t.listings i ≡ some x
    → find (writable listing_id org) t.listings ≡ some row
    → IsPriced t.price_history x
    → ((history ≡ t.price_history) × (get_or patch.price row.price ≡ row.price))
      ⊎ ((h : PriceRow) × (history ≡ h ∷ t.price_history)
          × (h.listing_id ≡ listing_id)
          × (patch.price ≡ some h.price))
    → IsPriced history (if writable listing_id org x then patched patch now x else x)
IsPriced-after listing_id org now i patch row x t history keyed e found priced (inl (same, kept)) =
    IsPriced-kept listing_id org now i patch row x t history keyed e found priced same kept
IsPriced-after listing_id org now i patch row x t history keyed e found priced
      (inr (h, grown, id, price)) =
    subst (λ prices. IsPriced prices (if writable listing_id org x then patched patch now x else x))
      (sym grown)
      (IsPriced-moved listing_id org now i patch row x t h keyed e found priced id price)
