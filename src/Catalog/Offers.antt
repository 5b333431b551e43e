-- ===== src/Catalog/Offers.antt =====
-- apps/api/src/catalog/repositories/listing-write.repository.ts, with the constraints of the table
-- listing and the policies of migrations 0010, 0017 and 0019 that its statements run under.
use real_estate_webapp.Prelude.{
  take, sort_by, leb, ℕ, Bool, true, false, not, ◌&&◌, ◌||◌, Option, none, some, List, [], ◌∷◌,
  ◌==◌, ltb, if◌then◌else◌, any, find, update_where, Result, ok, err, is_none, is_some, get_or,
  or_else, Text,
}
use real_estate_webapp.Http.{HttpError, internal}
use real_estate_webapp.Catalog.{
  ListingStatus, draft, pending_review, active, under_offer, sold, rented, withdrawn, expired,
  rejected, ListingVisibility, TransactionType, PossessionStatus, Furnishing, LocalityRow,
  PropertyRow, ListingRow, Tables, is_active, is_closed, is_ready, can_view_listing,
}
use real_estate_webapp.Catalog.Properties.{is_positive}

pub record ListingWriteInput : Type 0 where
  pub organization_id : ℕ
  pub property_id : ℕ
  pub listed_by_user_id : Option ℕ
  pub transaction_type : TransactionType
  pub status : ListingStatus
  pub visibility : ListingVisibility
  pub possession : PossessionStatus
  pub possession_date : Option ℕ
  pub price : ℕ
  pub price_on_request : Option Bool
  pub price_negotiable : Option Bool
  pub maintenance_monthly : Option ℕ
  pub booking_amount : Option ℕ
  pub furnishing : Option Furnishing
  pub title : Option Text
  pub description : Option Text
  pub features : Option (List Text)

-- Where an explicit null clears a column, the outer option is the field's presence. Elsewhere null and
-- absence are the same to `coalesce`.
pub record ListingPatch : Type 0 where
  pub status : Option ListingStatus
  pub visibility : Option ListingVisibility
  pub possession : Option PossessionStatus
  pub possession_date : Option (Option ℕ)
  pub price : Option ℕ
  pub price_on_request : Option Bool
  pub maintenance_monthly : Option (Option ℕ)
  pub furnishing : Option Furnishing
  pub title : Option Text
  pub description : Option Text
  pub features : Option (List Text)
  pub close_price : Option (Option ℕ)

-- The CHECK constraints of the table, from migrations 0005 and 0015.
unfoldable pub listing_checks : ListingRow → Bool
listing_checks l =
    ltb 0 l.price
    && (not (is_active l.status) || is_some l.published_at)
    && ((is_none l.close_price && is_none l.closed_at) || is_closed l.status)
    && is_positive l.close_price
    && (is_none l.possession_date || not (is_ready l.possession))

-- The foreign key on app_user(id).
abbrev pub user_exists : Option ℕ → Tables → Bool
user_exists none t = true
user_exists (some uid) t = any (λ u. u == uid) t.user_ids

abbrev pub new_listing : ListingWriteInput → (new_id now : ℕ) → ListingRow
new_listing input new_id now = record {
  id = new_id;
  organization_id = input.organization_id;
  property_id = input.property_id;
  listed_by_user_id = input.listed_by_user_id;
  transaction_type = input.transaction_type;
  status = input.status;
  visibility = input.visibility;
  possession = input.possession;
  possession_date = input.possession_date;
  price = input.price;
  price_on_request = get_or input.price_on_request false;
  price_negotiable = get_or input.price_negotiable true;
  maintenance_monthly = input.maintenance_monthly;
  booking_amount = input.booking_amount;
  furnishing = input.furnishing;
  title = input.title;
  description = input.description;
  features = get_or input.features [];
  close_price = none;
  closed_at = none;
  published_at = if is_active input.status then some now else none;
  created_at = now;
  updated_at = now;
}

-- The policy `listing_write_policy`, the foreign keys and the constraints refuse a row by an error.
unfoldable pub create_listing :
    ListingWriteInput → (org new_id now : ℕ) → Tables → Result HttpError Tables
create_listing input org new_id now t =
    if input.organization_id == org
      && any (λ p. p.id == input.property_id) t.properties
      && user_exists input.listed_by_user_id t
      && listing_checks (new_listing input new_id now)
    then ok (record t { listings = new_listing input new_id now ∷ t.listings })
    else err internal

-- `${status} IN ('SOLD', 'RENTED')` of a parameter that may be null.
abbrev pub closes : Option ListingStatus → Bool
closes none = false
closes (some s) = is_closed s

abbrev pub activates : Option ListingStatus → Bool
activates none = false
activates (some s) = is_active s

unfoldable pub patched : ListingPatch → (now : ℕ) → ListingRow → ListingRow
patched patch now l = record l {
  status = get_or patch.status l.status;
  visibility = get_or patch.visibility l.visibility;
  possession = get_or patch.possession l.possession;
  possession_date = get_or patch.possession_date l.possession_date;
  price = get_or patch.price l.price;
  price_on_request = get_or patch.price_on_request l.price_on_request;
  maintenance_monthly = get_or patch.maintenance_monthly l.maintenance_monthly;
  furnishing = or_else patch.furnishing l.furnishing;
  title = or_else patch.title l.title;
  description = or_else patch.description l.description;
  features = get_or patch.features l.features;
  close_price = get_or patch.close_price l.close_price;
  closed_at =
      if closes patch.status && is_none l.closed_at
      then some now
      else (if is_some patch.status && not (closes patch.status) then none else l.closed_at);
  published_at =
      if activates patch.status && is_none l.published_at then some now else l.published_at;
  updated_at = now;
}

-- The rows that `listing_write_policy` lets an organisation change.
abbrev pub writable : (listing_id org : ℕ) → ListingRow → Bool
writable listing_id org l = l.id == listing_id && l.organization_id == org

-- Whether a row was updated, and the tables after it. The id is the primary key.
abbrev pub updated :
    Option ListingRow
    → (listing_id org : ℕ) → ListingPatch
    → (now : ℕ) → Tables
    → Result HttpError (Bool × Tables)
updated none listing_id org patch now t = ok (false, t)
updated (some l) listing_id org patch now t =
    if listing_checks (patched patch now l)
    then ok (
      true,
      record t { listings = update_where (writable listing_id org) (patched patch now) t.listings },
    )
    else err internal

unfoldable pub update_listing :
    (listing_id org : ℕ) → ListingPatch → (now : ℕ) → Tables → Result HttpError (Bool × Tables)
update_listing listing_id org patch now t =
    updated (find (writable listing_id org) t.listings) listing_id org patch now t

unfoldable pub record_price_change :
    (listing_id price : ℕ) → (user : Option ℕ) → (org : ℕ) → Tables → Result HttpError Tables
record_price_change listing_id price user org t =
    if any (writable listing_id org) t.listings && user_exists user t
    then ok (record t {
      price_history =
          record { listing_id = listing_id; price = price; changed_by_user_id = user }
          ∷ t.price_history;
    })
    else err internal

-- A SELECT returns what either policy of the table admits, and `listing_write_policy` admits no row
-- of a viewer's own that `can_view_listing` does not.
abbrev pub readable : (listing_id org : ℕ) → Tables → ListingRow → Bool
readable listing_id org t l = l.id == listing_id && can_view_listing org t l

-- A listing with the rows that every query joins to it.
pub record Joined : Type 0 where
  pub listing : ListingRow
  pub property : PropertyRow
  pub locality : LocalityRow

abbrev pub joined_locality : ListingRow → PropertyRow → Option LocalityRow → Option Joined
joined_locality l p none = none
joined_locality l p (some loc) = some record { listing = l; property = p; locality = loc }

abbrev pub joined_property : ListingRow → Option PropertyRow → Tables → Option Joined
joined_property l none t = none
joined_property l (some p) t =
    joined_locality l p (find (λ loc. loc.id == p.columns.locality_id) t.localities)

unfoldable pub joined : Tables → ListingRow → Option Joined
joined t l = joined_property l (find (λ p. p.id == l.property_id) t.properties) t

abbrev pub joined_first : Option ListingRow → Tables → Option Joined
joined_first none t = none
joined_first (some l) t = joined t l

-- `findOneForEdit`, and `findState`, which selects three columns of the same row.
unfoldable pub find_one_for_edit : (listing_id org : ℕ) → Tables → Option Joined
find_one_for_edit listing_id org t = joined_first (find (readable listing_id org t) t.listings) t

abbrev pub keep_joined : Option Joined → List Joined → List Joined
keep_joined none js = js
keep_joined (some j) js = j ∷ js

abbrev pub status_number : ListingStatus → ℕ
status_number draft = 0
status_number pending_review = 1
status_number active = 2
status_number under_offer = 3
status_number sold = 4
status_number rented = 5
status_number withdrawn = 6
status_number expired = 7
status_number rejected = 8

abbrev pub has_status : Option ListingStatus → ListingStatus → Bool
has_status none s = true
has_status (some want) s = status_number s == status_number want

-- The rows of `findForOrg` that the policy shows and the status keeps.
unfoldable pub rows_for_org :
    (org : ℕ) → Option ListingStatus → Tables → List ListingRow → List Joined
rows_for_org org status t [] = []
rows_for_org org status t (l ∷ ls) =
    if can_view_listing org t l && has_status status l.status
    then keep_joined (joined t l) (rows_for_org org status t ls)
    else rows_for_org org status t ls

-- `ORDER BY l.updated_at DESC`, whose ties the database orders as it likes.
abbrev pub updated_last : Joined → Joined → Bool
updated_last a b = leb b.listing.updated_at a.listing.updated_at

abbrev pub staff_list_limit : ℕ
staff_list_limit = 100

unfoldable pub list_for_staff : (org : ℕ) → Option ListingStatus → Tables → List Joined
unfolding rows_for_org
list_for_staff org status t =
    take staff_list_limit (sort_by updated_last (rows_for_org org status t t.listings))
