-- ===== src/Catalog/Admin.antt =====
-- apps/api/src/catalog/services/listing-admin.service.ts: how staff of an organisation create, change
-- and read listings. Every call of a repository is a transaction of its own, so what an earlier call
-- stored stays when a later one fails.
pub mod Closing
pub mod Gate
pub mod Prices
pub mod Publication
pub mod Tenancy
use real_estate_webapp.Prelude.{
  ℕ, Bool, true, false, not, ◌&&◌, Option, none, some, ◌==◌, if◌then◌else◌, Result, ok, err,
  or_throw, Text,
}
use real_estate_webapp.Http.{HttpError, bad_request, forbidden, not_found}
use real_estate_webapp.Catalog.{ListingStatus, ReraRow, Tables, is_active}
use real_estate_webapp.Catalog.Rera.{find_valid}
use real_estate_webapp.Catalog.Properties.{state_for_locality, resolve_locality, find_or_create}
use real_estate_webapp.Catalog.Offers.{
  Joined, activates, create_listing, update_listing, record_price_change, find_one_for_edit,
}
use real_estate_webapp.Catalog.Requests.{
  Principal, CreateListingDto, UpdateListingDto, property_input, status_of, write_input,
  next_status, listing_patch,
}

-- The clock, and the ids that the database will generate.
pub record Moment : Type 0 where
  pub now : ℕ
  pub today : ℕ
  pub property_id : ℕ
  pub listing_id : ℕ

-- What a request answers, and the tables after it.
pub record Outcome {ℓ} (A : Type ℓ) : Type ℓ where
  pub answer : Result {ℓ, 0} HttpError A
  pub tables : Tables

abbrev pub refusal : Option ReraRow → Option HttpError
refusal none = some (forbidden "Cannot publish a listing in this state.")
refusal (some registration) = none

-- What `assertPublishable` throws, if anything.
unfoldable pub assert_publishable :
    (org : ℕ) → (state : Text) → (today : ℕ) → Tables → Option HttpError
assert_publishable org state today t = refusal (find_valid org state today t.registrations)

-- `stateForLocality`, whose error precedes the gate's.
abbrev pub publishable_in : Option Text → (org today : ℕ) → Tables → Option HttpError
publishable_in none org today t = some (bad_request "Unknown locality.")
publishable_in (some state) org today t = assert_publishable org state today t

unfoldable pub create_gate : CreateListingDto → (org today : ℕ) → Tables → Option HttpError
create_gate dto org today t =
    if is_active (status_of dto)
    then publishable_in (state_for_locality dto.city_slug dto.locality_slug t) org today t
    else none

-- The last steps of `create`, each on the result of the transaction before it.
abbrev pub opened : Result {0, 0} HttpError Tables → (listing_id : ℕ) → Tables → Outcome ℕ
opened (err e) listing_id t = record { answer = err e; tables = t }
opened (ok u) listing_id t = record { answer = ok listing_id; tables = u }

abbrev pub listed :
    Result {0, 0} HttpError Tables → CreateListingDto → Principal → Moment → Tables → Outcome ℕ
listed (err e) dto principal m t = record { answer = err e; tables = t }
listed (ok u) dto principal m t =
    opened
      (record_price_change m.listing_id dto.price (some principal.user_id) principal.organization_id
        u)
      m.listing_id u

abbrev pub placed :
    Result {0, 0} HttpError (ℕ × Tables)
    → CreateListingDto
    → Principal
    → Moment
    → Tables
    → Outcome ℕ
placed (err e) dto principal m t = record { answer = err e; tables = t }
placed (ok (property_id, u)) dto principal m t =
    listed
      (create_listing (write_input dto principal property_id) principal.organization_id m.listing_id
        m.now u)
      dto principal m u

abbrev pub gated :
    Option HttpError
    → (locality_id : ℕ) → CreateListingDto
    → Principal
    → Moment
    → Tables
    → Outcome ℕ
gated (some e) locality_id dto principal m t = record { answer = err e; tables = t }
gated none locality_id dto principal m t =
    placed (find_or_create (property_input dto locality_id) m.property_id t) dto principal m t

abbrev pub located : Option ℕ → CreateListingDto → Principal → Moment → Tables → Outcome ℕ
located none dto principal m t = record {
  answer = err (bad_request "Unknown locality.");
  tables = t;
}
located (some locality_id) dto principal m t =
    gated (create_gate dto principal.organization_id m.today t) locality_id dto principal m t

unfoldable pub create : CreateListingDto → Principal → Moment → Tables → Outcome ℕ
create dto principal m t =
    located (resolve_locality dto.city_slug dto.locality_slug t) dto principal m t

-- The gate of `update`, on the row as it is now.
unfoldable pub update_gate : Joined → UpdateListingDto → (org today : ℕ) → Tables → Option HttpError
update_gate current dto org today t =
    if activates (next_status dto) && not (is_active current.listing.status)
    then assert_publishable org current.locality.city.state today t
    else none

abbrev pub finished : Result {0, 0} HttpError Tables → Tables → Outcome (Unit {0})
finished (err e) t = record { answer = err e; tables = t }
finished (ok u) t = record { answer = ok tt; tables = u }

-- An entry is made only where the request names a price that is not the current one.
abbrev pub repriced :
    (current : ℕ) → Option ℕ → (listing_id : ℕ) → Principal → Tables → Outcome (Unit {0})
repriced current none listing_id principal t = record { answer = ok tt; tables = t }
repriced current (some price) listing_id principal t =
    if current == price
    then record { answer = ok tt; tables = t }
    else finished
        (record_price_change listing_id price (some principal.user_id) principal.organization_id t)
        t

abbrev pub changed :
    Result {0, 0} HttpError (Bool × Tables)
    → Joined
    → UpdateListingDto
    → (listing_id : ℕ) → Principal
    → Tables
    → Outcome (Unit {0})
changed (err e) current dto listing_id principal t = record { answer = err e; tables = t }
changed (ok (false, u)) current dto listing_id principal t = record {
  answer = err (not_found "Listing not found.");
  tables = u;
}
changed (ok (true, u)) current dto listing_id principal t =
    repriced current.listing.price dto.price listing_id principal u

abbrev pub admitted :
    Option HttpError
    → Joined
    → UpdateListingDto
    → (listing_id : ℕ) → Principal
    → Moment
    → Tables
    → Outcome (Unit {0})
admitted (some e) current dto listing_id principal m t = record { answer = err e; tables = t }
admitted none current dto listing_id principal m t =
    changed (update_listing listing_id principal.organization_id (listing_patch dto) m.now t)
      current dto listing_id principal t

abbrev pub on_current :
    Option Joined
    → UpdateListingDto
    → (listing_id : ℕ) → Principal
    → Moment
    → Tables
    → Outcome (Unit {0})
on_current none dto listing_id principal m t = record {
  answer = err (not_found "Listing not found.");
  tables = t;
}
on_current (some current) dto listing_id principal m t =
    admitted (update_gate current dto principal.organization_id m.today t) current dto listing_id
      principal m t

unfoldable pub update :
    (listing_id : ℕ) → UpdateListingDto → Principal → Moment → Tables → Outcome (Unit {0})
update listing_id dto principal m t =
    on_current (find_one_for_edit listing_id principal.organization_id t) dto listing_id principal m
      t

-- The row behind the edit form, before `toStaffListing`.
unfoldable pub get_for_edit : (listing_id org : ℕ) → Tables → Result {0, 0} HttpError Joined
get_for_edit listing_id org t =
    or_throw (not_found "Listing not found.") (find_one_for_edit listing_id org t)
