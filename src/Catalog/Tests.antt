-- ===== src/Catalog/Tests.antt =====
-- A small catalog, and the theorems about its administration there.
use real_estate_webapp.Prelude.{
  get_elem?, arith, ℕ, ◌≡◌, ◌⊎◌, inl, refl, true, false, none, some, [], ◌∷◌, ok, any, find,
  update_where, codes, text_eq, IsKeyed, ◌==◌,
}
use real_estate_webapp.Catalog.{
  PropertyType, ListingStatus, ListingVisibility, TransactionType, PossessionStatus, LocalityRow,
  PropertyInput, ListingRow, PriceRow, ReraRow, Tables, can_view_listing,
}
use real_estate_webapp.Catalog.Vocabulary.{
  PropertyTypeDto, ListingStatusDto, PossessionDto, property_type_to_db, db_to_property_type,
  status_to_db, possession_to_db, transaction_to_db, property_type_round_trip,
}
use real_estate_webapp.Catalog.Rera.{is_for, find_valid, upsert}
use real_estate_webapp.Catalog.Properties.{
  property_checks, is_same_plot, insert_property, find_or_create, is_named, state_for_locality,
  resolve_locality,
}
use real_estate_webapp.Catalog.Offers.{
  Joined, listing_checks, create_listing, patched, update_listing, record_price_change, joined,
  find_one_for_edit, rows_for_org, list_for_staff,
}
use real_estate_webapp.Catalog.Requests.{
  Principal, CreateListingDto, UpdateListingDto, listing_patch,
}
use real_estate_webapp.Catalog.Admin.{
  Moment, assert_publishable, create_gate, create, update_gate, update, get_for_edit,
}
use real_estate_webapp.Catalog.Admin.Gate.{IsRegistered, update_publishes-IsRegistered}
use real_estate_webapp.Catalog.Admin.Publication.{create_publishes-IsRegistered}
use real_estate_webapp.Catalog.Admin.Prices.{IsPricedAll, update-IsPricedAll}
use real_estate_webapp.Catalog.Admin.Prices.History.{latest_price}
use real_estate_webapp.Catalog.Admin.Closing.{IsDated, update-IsDated}
use real_estate_webapp.Catalog.Admin.Tenancy.{other_listing_kept, list_shows_rivals}

service : Unit {0}
unfolding property_type_to_db db_to_property_type status_to_db possession_to_db transaction_to_db
    is_for find_valid upsert property_checks is_same_plot insert_property find_or_create is_named
    state_for_locality resolve_locality listing_checks create_listing patched update_listing
    record_price_change joined find_one_for_edit rows_for_org assert_publishable create_gate create
    update_gate update get_for_edit can_view_listing any find update_where text_eq latest_price
service = tt

abbrev pub sector_70 : LocalityRow
sector_70 = record {
  id = 1;
  slug = codes "sector-70";
  city = record { slug = codes "mohali"; state = codes "Punjab" };
}

abbrev pub kothi_12 : PropertyInput
kothi_12 = record {
  locality_id = 1;
  property_type = PropertyType.kothi;
  lat = 30;
  lng = 76;
  address_line = none;
  plot_number = some (codes "12");
  pincode = none;
  plot_area_sqft = some 272250;
  built_up_area_sqft = none;
  carpet_area_sqft = none;
  area_input_value = none;
  area_input_unit = none;
  area_conversion_factor = none;
  area_input_basis = none;
  bedrooms = some 3;
  bathrooms = none;
  balconies = none;
  total_floors = none;
  floor_number = none;
  facing = none;
  year_built = none;
}

abbrev pub offer : ListingRow
offer = record {
  id = 7;
  organization_id = 1;
  property_id = 4;
  listed_by_user_id = some 2;
  transaction_type = TransactionType.sale;
  status = ListingStatus.pending_review;
  visibility = ListingVisibility.public_;
  possession = PossessionStatus.ready_to_move;
  possession_date = none;
  price = 900;
  price_on_request = false;
  price_negotiable = true;
  maintenance_monthly = none;
  booking_amount = none;
  furnishing = none;
  title = none;
  description = none;
  features = [];
  close_price = none;
  closed_at = none;
  published_at = none;
  created_at = 10;
  updated_at = 10;
}

-- A deal of another organisation that is live, and one of the first organisation that is closed.
abbrev pub rival : ListingRow
rival = record offer {
  id = 8;
  organization_id = 2;
  status = ListingStatus.active;
  published_at = some 10;
}

abbrev pub deal : ListingRow
deal = record offer {
  id = 9;
  status = ListingStatus.sold;
  close_price = some 880;
  closed_at = some 11;
}

abbrev price_entry : (listing_id price : ℕ) → PriceRow
price_entry listing_id price = record {
  listing_id = listing_id;
  price = price;
  changed_by_user_id = some 2;
}

abbrev pub punjab : ReraRow
punjab = record {
  organization_id = 1;
  state = codes "Punjab";
  registration_no = codes "PB-1";
  authority_name = codes "Punjab RERA";
  valid_until = some 50;
}

abbrev pub catalog : Tables
catalog = record {
  localities = sector_70 ∷ [];
  organizations = [];
  partners = [];
  user_ids = 2 ∷ [];
  registrations = punjab ∷ [];
  properties = record { id = 4; columns = kothi_12 } ∷ [];
  listings = offer ∷ rival ∷ deal ∷ [];
  price_history = price_entry 7 900 ∷ price_entry 8 900 ∷ price_entry 9 900 ∷ [];
}

abbrev staff : Principal
staff = record { organization_id = 1; user_id = 2 }

abbrev moment : Moment
moment = record { now = 20; today = 40; property_id = 5; listing_id = 6 }

abbrev unchanged : UpdateListingDto
unchanged = record {
  status = none;
  visibility = none;
  possession = none;
  possession_date = none;
  price = none;
  price_on_request = none;
  maintenance_charges = none;
  furnishing = none;
  title = none;
  description = none;
  features = none;
  close_price = none;
}

abbrev publish : UpdateListingDto
publish = record unchanged { status = some ListingStatusDto.active; price = some 850 }

abbrev dto : CreateListingDto
dto = record {
  city_slug = codes "mohali";
  locality_slug = codes "sector-70";
  lat = 30;
  lng = 76;
  address_line = none;
  plot_number = some (codes "12");
  pincode = none;
  property_type = PropertyTypeDto.kothi;
  plot_area_sqft = none;
  built_up_area_sqft = none;
  carpet_area_sqft = none;
  area_input_value = none;
  area_input_unit = none;
  area_conversion_factor = none;
  area_input_basis = none;
  bedrooms = none;
  bathrooms = none;
  balconies = none;
  total_floors = none;
  floor_number = none;
  facing = none;
  year_built = none;
  transaction_type = none;
  price = 800;
  price_on_request = none;
  maintenance_charges = none;
  possession = PossessionDto.ready_to_move;
  possession_date = none;
  furnishing = none;
  status = none;
  visibility = none;
  title = none;
  description = none;
  features = none;
}

property_type_round_trip_example :
    (db_to_property_type (property_type_to_db PropertyTypeDto.villa) ≡ some PropertyTypeDto.villa)
    ⊎ ((PropertyTypeDto.villa ≡ PropertyTypeDto.villa)
        × (db_to_property_type (property_type_to_db PropertyTypeDto.villa)
            ≡ some PropertyTypeDto.flat))
property_type_round_trip_example = property_type_round_trip PropertyTypeDto.villa

IsKeyed-listings : IsKeyed (λ (x : ListingRow). x.id) catalog.listings
unfolding service
IsKeyed-listings = (refl, (refl, (refl, tt)))

update_publishes-IsRegistered_example :
    (j : Joined) × (joined catalog offer ≡ some j) × IsRegistered 1 40 catalog j
unfolding service
update_publishes-IsRegistered_example =
    update_publishes-IsRegistered 7 0 publish staff moment catalog offer
      (patched (listing_patch publish) 20 offer) IsKeyed-listings refl refl refl refl

abbrev created : ListingRow
created = record offer {
  id = 6;
  status = ListingStatus.active;
  price = 800;
  published_at = some 20;
  created_at = 20;
  updated_at = 20;
}

create_publishes-IsRegistered_example :
    (j : Joined) × (joined (create dto staff moment catalog).tables created ≡ some j)
    × IsRegistered 1 40 catalog j
unfolding service
create_publishes-IsRegistered_example =
    create_publishes-IsRegistered dto staff moment catalog created (refl, tt) (refl, tt) refl refl

update-IsPricedAll_example : IsPricedAll (update 7 publish staff moment catalog).tables
unfolding service
update-IsPricedAll_example =
    update-IsPricedAll 7 publish staff moment catalog IsKeyed-listings (refl, (refl, (refl, tt)))
      refl

update-IsDated_example :
    IsDated
      (patched (listing_patch (record unchanged { status = some ListingStatusDto.sold })) 20 offer)
unfolding service
update-IsDated_example =
    update-IsDated 7 0 (record unchanged { status = some ListingStatusDto.sold }) staff moment
      catalog offer
      (patched (listing_patch (record unchanged { status = some ListingStatusDto.sold })) 20 offer)
      refl refl (inl refl)

list_shows_rivals_example :
    (any (λ k. k.listing.id == 8) (list_for_staff 1 none catalog) ≡ true)
    × (get_for_edit 8 1 catalog
        ≡ ok record {
          listing = rival;
          property = record { id = 4; columns = kothi_12 };
          locality = sector_70;
        })
unfolding service
list_shows_rivals_example =
    list_shows_rivals 1 1 catalog rival
      record {
        listing = rival;
        property = record { id = 4; columns = kothi_12 };
        locality = sector_70;
      }
      IsKeyed-listings refl refl refl refl (omega arith)

other_listing_kept_example :
    get_elem? (update 8 publish staff moment catalog).tables.listings 1 ≡ some rival
unfolding service
other_listing_kept_example =
    other_listing_kept 8 1 publish staff moment catalog rival refl
      (λ same. absurd (omega (arith, same)))
