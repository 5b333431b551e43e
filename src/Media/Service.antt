-- ===== src/Media/Service.antt =====
-- apps/api/src/media: media.service.ts over media.repository.ts, with the policies and the constraint
-- of migration 0018.
use real_estate_webapp.Prelude.{
  ℕ, suc, ◌*◌, max, Bool, true, false, not, ◌&&◌, Option, none, some, List, [], ◌∷◌, ◌++◌, map,
  ◌==◌, ltb, if◌then◌else◌, any, find, update_where, rows_where, length, Result, ok, err, Text,
}
use real_estate_webapp.Http.{bad_request, not_found, payload_too_large, internal}
use real_estate_webapp.Catalog.{can_view_listing}
use real_estate_webapp.Catalog.Offers.{writable}
use real_estate_webapp.Media.{
  Key, key_eq, original_key, variant_key, all_keys_for, pending, ready, failed, VariantRecord,
  MediaRow, StoredObject, ProcessedVariant, Processed, ProcessError, unsupported_image,
  other_failure, Store, Uploaded, Outcome, is_ready, is_checksum,
}

unfoldable pub listing_writable : (listing_id org : ℕ) → Store → Bool
listing_writable listing_id org s = any (writable listing_id org) s.catalog.listings

unfoldable pub find_by_checksum : (listing_id checksum : ℕ) → Store → Option MediaRow
find_by_checksum listing_id checksum s =
    find (λ r. r.listing_id == listing_id && is_checksum checksum r.checksum && is_ready r.status)
      s.media

-- `coalesce(max(sort_order), -1) + 1`
unfoldable pub next_order : (listing_id : ℕ) → List MediaRow → ℕ
next_order listing_id [] = 0
next_order listing_id (r ∷ rs) =
    if r.listing_id == listing_id
    then max (suc r.sort_order) (next_order listing_id rs)
    else next_order listing_id rs

abbrev pub reserved : (listing_id new_id : ℕ) → (caption : Option Text) → Store → MediaRow
reserved listing_id new_id caption s = record {
  id = new_id;
  listing_id = listing_id;
  storage_key = none;
  sort_order = next_order listing_id s.media;
  caption = caption;
  status = pending;
  variants = [];
  checksum = none;
  mime_type = none;
  byte_size = none;
  width = none;
  height = none;
}

abbrev pub has_id : ℕ → MediaRow → Bool
has_id id r = r.id == id

abbrev pub variant_record : (listing_id media_id : ℕ) → ProcessedVariant → VariantRecord
variant_record listing_id media_id v = record {
  variant = v.name;
  key = variant_key listing_id media_id v.name;
  width = v.width;
  height = v.height;
  bytes = length v.body;
}

abbrev pub marked_ready : (listing_id media_id : ℕ) → Processed → MediaRow → MediaRow
marked_ready listing_id media_id p r = record r {
  storage_key = some (original_key listing_id media_id);
  variants = map (variant_record listing_id media_id) p.variants;
  mime_type = some p.original_mime;
  byte_size = some p.original_bytes;
  checksum = some p.checksum;
  width = some p.width;
  height = some p.height;
  status = ready;
}

abbrev pub marked_failed : MediaRow → MediaRow
marked_failed r = record r { status = failed }

-- What the writes of one upload left in the object storage, and whether all of them succeeded.
pub record Written : Type 0 where
  pub objects : List StoredObject
  pub done : Bool

-- `storage.put` for one key after the other. The first write that fails ends the upload.
unfoldable pub put_all :
    (puts : ℕ → Bool) → (n : ℕ) → List StoredObject → List StoredObject → Written
put_all puts n [] objects = record { objects = objects; done = true }
put_all puts n (o ∷ os) objects =
    let rest = put_all puts (suc n) os (o ∷ objects) in
    if puts n then rest else record { objects = objects; done = false }

abbrev pub variant_object : (listing_id media_id : ℕ) → ProcessedVariant → StoredObject
variant_object listing_id media_id v = record {
  key = variant_key listing_id media_id v.name;
  body = v.body;
}

-- The variants, then the original.
abbrev pub uploads :
    (listing_id media_id : ℕ) → List ProcessedVariant → (buffer : List ℕ) → List StoredObject
uploads listing_id media_id variants buffer =
    map (variant_object listing_id media_id) variants
    ++ (record { key = original_key listing_id media_id; body = buffer } ∷ [])

abbrev pub is_empty {ℓ} : {A : Type ℓ} → List A → Bool
is_empty [] = true
is_empty (x ∷ xs) = false

-- After the reservation: `markReady` where every write succeeded and the constraint
-- listing_media_ready_has_variants allows it, and `markFailed` otherwise.
abbrev pub settled :
    Written → (listing_id new_id : ℕ) → Processed → List MediaRow → Store → Outcome Uploaded
settled w listing_id new_id p rows s =
    if w.done && not (is_empty p.variants)
    then record {
      answer = ok record { id = new_id; deduplicated = false };
      store = record s {
        media = update_where (has_id new_id) (marked_ready listing_id new_id p) rows;
        objects = w.objects;
      };
    }
    else record {
      answer = err internal;
      store = record s {
        media = update_where (has_id new_id) marked_failed rows;
        objects = w.objects;
      };
    }

abbrev pub stored_new :
    (puts : ℕ → Bool)
    → (listing_id new_id : ℕ) → (buffer : List ℕ) → (caption : Option Text) → Processed
    → Store
    → Outcome Uploaded
stored_new puts listing_id new_id buffer caption p s =
    settled (put_all puts 0 (uploads listing_id new_id p.variants buffer) s.objects) listing_id
      new_id p (reserved listing_id new_id caption s ∷ s.media) s

abbrev pub deduplicated_or_new :
    Option MediaRow
    → (puts : ℕ → Bool) → (listing_id new_id : ℕ) → (buffer : List ℕ) → (caption : Option Text)
    → Processed
    → Store
    → Outcome Uploaded
deduplicated_or_new (some existing) puts listing_id new_id buffer caption p s = record {
  answer = ok record { id = existing.id; deduplicated = true };
  store = s;
}
deduplicated_or_new none puts listing_id new_id buffer caption p s =
    stored_new puts listing_id new_id buffer caption p s

abbrev pub on_processed :
    Result {0, 0} ProcessError Processed
    → (puts : ℕ → Bool) → (listing_id new_id : ℕ) → (buffer : List ℕ) → (caption : Option Text)
    → Store
    → Outcome Uploaded
on_processed (err (unsupported_image message)) puts listing_id new_id buffer caption s = record {
  answer = err (bad_request message);
  store = s;
}
on_processed (err other_failure) puts listing_id new_id buffer caption s = record {
  answer = err internal;
  store = s;
}
on_processed (ok p) puts listing_id new_id buffer caption s =
    deduplicated_or_new (find_by_checksum listing_id p.checksum s) puts listing_id new_id buffer
      caption p s

abbrev pub max_bytes : ℕ
max_bytes = 25 * 1024 * 1024

unfoldable pub upload :
    (process : List ℕ → Result {0, 0} ProcessError Processed)
    → (puts : ℕ → Bool) → (listing_id org new_id : ℕ) → (buffer : List ℕ) → (caption : Option Text)
    → Store
    → Outcome Uploaded
upload process puts listing_id org new_id buffer caption s =
    if length buffer == 0
    then record { answer = err (bad_request "The uploaded file is empty."); store = s }
    else if ltb max_bytes (length buffer)
    then record { answer = err (payload_too_large "The limit is 25MB."); store = s }
    else if listing_writable listing_id org s
    then on_processed (process buffer) puts listing_id new_id buffer caption s
    else record { answer = err (not_found "Listing not found."); store = s }

-- The rows of media that an organisation can read: those of a listing that it can read.
unfoldable pub media_readable : (org : ℕ) → Store → MediaRow → Bool
media_readable org s r =
    any (λ l. l.id == r.listing_id && can_view_listing org s.catalog l) s.catalog.listings

unfoldable pub find_by_id : (media_id org : ℕ) → Store → Option MediaRow
find_by_id media_id org s = find (λ r. has_id media_id r && media_readable org s r) s.media

-- `deleteMany`
unfoldable pub delete_many : List Key → List StoredObject → List StoredObject
delete_many keys objects = rows_where (λ o. not (any (key_eq o.key) keys)) objects

abbrev pub removed : Option MediaRow → (media_id org : ℕ) → Store → Outcome (Unit {0})
removed none media_id org s = record { answer = err (not_found "Media not found."); store = s }
removed (some r) media_id org s =
    if listing_writable r.listing_id org s
    then record {
      answer = ok tt;
      store = record s {
        media = rows_where (λ x. not (has_id media_id x)) s.media;
        objects =
            delete_many
              (all_keys_for r.listing_id r.id (map (λ (v : VariantRecord). v.variant) r.variants))
              s.objects;
      };
    }
    else record { answer = err (not_found "Media not found."); store = s }

unfoldable pub remove : (media_id org : ℕ) → Store → Outcome (Unit {0})
remove media_id org s = removed (find_by_id media_id org s) media_id org s

-- The position of an id in a list, from 1: `WITH ORDINALITY`.
unfoldable pub position_of : (id n : ℕ) → List ℕ → Option ℕ
position_of id n [] = none
position_of id n (x ∷ xs) = if x == id then some n else position_of id (suc n) xs

abbrev pub moved_to : Option ℕ → MediaRow → MediaRow
moved_to none r = r
moved_to (some n) r = record r { sort_order = n }

unfoldable pub reorder : (listing_id org : ℕ) → (ordered_ids : List ℕ) → Store → Outcome (Unit {0})
reorder listing_id org ordered_ids s =
    if listing_writable listing_id org s
    then record {
      answer = ok tt;
      store = record s {
        media =
            update_where (λ r. r.listing_id == listing_id)
              (λ r. moved_to (position_of r.id 1 ordered_ids) r) s.media;
      };
    }
    else record { answer = err (not_found "Listing not found."); store = s }

-- The rows that an anonymous visitor can read.
