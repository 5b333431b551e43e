-- ===== src/Media.antt =====
-- The photos of listings, for apps/api/src/media: the table listing_media, the object storage and
-- utils/storage-keys.ts.
--
-- A file is a list of bytes. A storage key is the ids and the name that its text is made of. The
-- image library is a parameter, and so is which of the successive writes to the object storage succeed.
pub mod Service
pub mod Reads
pub mod Servable
pub mod Deletion
pub mod Removal
pub mod Streaming
mod Tests
use real_estate_webapp.Prelude.{
  ℕ, suc, ◌+◌, ◌*◌, max, Bool, true, false, not, ◌&&◌, ◌||◌, Option, none, some, List, [], ◌∷◌,
  ◌++◌, map, ◌==◌, ltb, if◌then◌else◌, any, find, update_where, rows_where, length, Result, ok, err,
  String, Text, text_eq,
}
use real_estate_webapp.Http.{HttpError, bad_request, not_found, payload_too_large, internal}
use real_estate_webapp.Catalog as Catalog

-- `originalKey` has no name, `variantKey` has the variant's.
pub record Key : Type 0 where
  pub listing_id : ℕ
  pub media_id : ℕ
  pub name : Option Text

abbrev pub name_eq : Option Text → Option Text → Bool
name_eq none none = true
name_eq none (some t) = false
name_eq (some s) none = false
name_eq (some s) (some t) = text_eq s t

unfoldable pub key_eq : Key → Key → Bool
key_eq a b = a.listing_id == b.listing_id && a.media_id == b.media_id && name_eq a.name b.name

abbrev pub original_key : (listing_id media_id : ℕ) → Key
original_key listing_id media_id = record {
  listing_id = listing_id;
  media_id = media_id;
  name = none;
}

abbrev pub variant_key : (listing_id media_id : ℕ) → Text → Key
variant_key listing_id media_id name = record {
  listing_id = listing_id;
  media_id = media_id;
  name = some name;
}

unfoldable pub all_keys_for : (listing_id media_id : ℕ) → (variants : List Text) → List Key
all_keys_for listing_id media_id variants =
    original_key listing_id media_id ∷ map (variant_key listing_id media_id) variants

pub data MediaStatus : Type 0 where
  pending processing ready failed : MediaStatus

pub record VariantRecord : Type 0 where
  pub variant : Text
  pub key : Key
  pub width : ℕ
  pub height : ℕ
  pub bytes : ℕ

-- The columns kind, error_detail and created_at are left out. A row that is reserved has no storage
-- key yet, where the table holds a placeholder.
pub record MediaRow : Type 0 where
  pub id : ℕ
  pub listing_id : ℕ
  pub storage_key : Option Key
  pub sort_order : ℕ
  pub caption : Option Text
  pub status : MediaStatus
  pub variants : List VariantRecord
  pub checksum : Option ℕ
  pub mime_type : Option Text
  pub byte_size : Option ℕ
  pub width : Option ℕ
  pub height : Option ℕ

pub record StoredObject : Type 0 where
  pub key : Key
  pub body : List ℕ

-- What the image library makes of a file.
pub record ProcessedVariant : Type 0 where
  pub name : Text
  pub body : List ℕ
  pub width : ℕ
  pub height : ℕ

pub record Processed : Type 0 where
  pub variants : List ProcessedVariant
  pub checksum : ℕ
  pub original_mime : Text
  pub original_bytes : ℕ
  pub width : ℕ
  pub height : ℕ

pub data ProcessError : Type 0 where
  unsupported_image : String → ProcessError
  other_failure : ProcessError

pub record Store : Type 0 where
  pub catalog : Catalog.Tables
  pub media : List MediaRow
  pub objects : List StoredObject

pub record Uploaded : Type 0 where
  pub id : ℕ
  pub deduplicated : Bool

pub record Outcome {ℓ} (A : Type ℓ) : Type ℓ where
  pub answer : Result {ℓ, 0} HttpError A
  pub store : Store

abbrev pub is_ready : MediaStatus → Bool
is_ready ready = true
is_ready _ = false

abbrev pub is_checksum : ℕ → Option ℕ → Bool
is_checksum c none = false
is_checksum c (some d) = d == c
