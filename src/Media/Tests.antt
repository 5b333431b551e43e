-- ===== src/Media/Tests.antt =====
-- Uploads to a listing, and the theorems about them there.
use real_estate_webapp.Prelude.{
  ℕ, ◌≡◌, refl, inr, true, false, none, some, List, [], ◌∷◌, any, find, update_where, rows_where,
  text_eq, Result, ok, ltb, codes,
}
use real_estate_webapp.Http.{internal}
use real_estate_webapp.Catalog as Catalog
use real_estate_webapp.Media.{
  MediaRow, VariantRecord, StoredObject, ready, Processed, ProcessError, Store, key_eq,
  all_keys_for, original_key, variant_key,
}
use real_estate_webapp.Media.Service.{
  listing_writable, find_by_checksum, next_order, put_all, upload, media_readable, find_by_id,
  delete_many, remove,
}
use real_estate_webapp.Media.Reads.{stream_variant, chosen, picked}
use real_estate_webapp.Media.Servable.{IsConsistent, upload-IsConsistent}
use real_estate_webapp.Media.Streaming.{stream_variant-served}
use real_estate_webapp.Media.Removal.{shown, failed_upload_hidden}

service : Unit {0}
unfolding any find update_where rows_where text_eq key_eq all_keys_for listing_writable
    find_by_checksum next_order put_all upload media_readable find_by_id delete_many remove
    stream_variant chosen picked Catalog.can_view_listing
service = tt

abbrev house : Catalog.ListingRow
house = record {
  id = 7;
  organization_id = 1;
  property_id = 4;
  listed_by_user_id = none;
  transaction_type = Catalog.TransactionType.sale;
  status = Catalog.ListingStatus.active;
  visibility = Catalog.ListingVisibility.public_;
  possession = Catalog.PossessionStatus.ready_to_move;
  possession_date = none;
  price = 900;
  price_on_request = false;
  price_negotiable = true;
  maintenance_monthly = none;
  booking_amount = none;
  furnishing = none;
  title = none;
  description = none;
  features = [];
  close_price = none;
  closed_at = none;
  published_at = some 1;
  created_at = 1;
  updated_at = 1;
}

abbrev card : VariantRecord
card = record {
  variant = codes "card";
  key = variant_key 7 1 (codes "card");
  width = 4;
  height = 3;
  bytes = 1;
}

abbrev photo : MediaRow
photo = record {
  id = 1;
  listing_id = 7;
  storage_key = some (original_key 7 1);
  sort_order = 0;
  caption = none;
  status = ready;
  variants = card ∷ [];
  checksum = some 55;
  mime_type = none;
  byte_size = none;
  width = none;
  height = none;
}

abbrev album : Store
album = record {
  catalog = record {
    localities = [];
    organizations = [];
    partners = [];
    user_ids = [];
    registrations = [];
    properties = [];
    listings = house ∷ [];
    price_history = [];
  };
  media = photo ∷ [];
  objects =
      record { key = original_key 7 1; body = 9 ∷ [] }
      ∷ record { key = variant_key 7 1 (codes "card"); body = 8 ∷ [] }
      ∷ [];
}

abbrev process : List ℕ → Result {0, 0} ProcessError Processed
process buffer = ok record {
  variants = record { name = codes "card"; body = buffer; width = 4; height = 3 } ∷ [];
  checksum = 56;
  original_mime = codes "image/png";
  original_bytes = 1;
  width = 4;
  height = 3;
}

album-IsConsistent : IsConsistent album
unfolding service
album-IsConsistent = (inr (refl, ((refl, refl), tt)), tt)

upload-IsConsistent_example :
    IsConsistent (upload process (λ n. true) 7 1 2 (5 ∷ []) none album).store
unfolding service
upload-IsConsistent_example =
    upload-IsConsistent process (λ n. true) 7 1 2 (5 ∷ []) none album refl album-IsConsistent

failed_upload_hidden_example :
    shown (upload process (λ n. ltb n 1) 7 1 2 (5 ∷ []) none album).store ≡ photo ∷ []
unfolding service
failed_upload_hidden_example =
    failed_upload_hidden process (λ n. ltb n 1) 7 1 2 (5 ∷ []) none album internal refl refl

stream_variant-served_example :
    (o : StoredObject) × (stream_variant 1 (codes "hero") none album ≡ some o)
unfolding service
stream_variant-served_example =
    stream_variant-served 1 (codes "hero") none album photo card [] refl album-IsConsistent refl
      refl refl

-- A name that every object inherits is not found.
no_constructor : stream_variant 1 (codes "constructor") none album ≡ none
unfolding service
no_constructor = refl
