-- ===== src/Media/Reads.antt =====
-- The reads of apps/api/src/media: `streamVariant` of media.service.ts, the lists of media.repository.ts.
use real_estate_webapp.Prelude.{
  ℕ, Bool, ◌&&◌, Option, none, some, List, [], ◌∷◌, ◌==◌, ltb, if◌then◌else◌, any, find, rows_where,
  Text, codes, text_eq, or_else, sort_by, leb, ◌||◌,
}
use real_estate_webapp.Catalog.{is_open}
use real_estate_webapp.Media.{key_eq, VariantRecord, MediaRow, StoredObject, Store, is_ready}
use real_estate_webapp.Media.Service.{has_id, media_readable}

-- Who asks: nobody for the anonymous context, an organisation for its staff.
abbrev pub readable : (context : Option ℕ) → Store → MediaRow → Bool
readable none s r = any (λ l. l.id == r.listing_id && is_open s.catalog l) s.catalog.listings
readable (some org) s r = media_readable org s r

abbrev pub first_variant : List VariantRecord → Option VariantRecord
first_variant [] = none
first_variant (v ∷ vs) = some v

-- The members that every object of JavaScript has.
abbrev pub prototype_members : List Text
prototype_members =
    codes "constructor"
    ∷ codes "__proto__"
    ∷ codes "__defineGetter__"
    ∷ codes "__defineSetter__"
    ∷ codes "__lookupGetter__"
    ∷ codes "__lookupSetter__"
    ∷ codes "hasOwnProperty"
    ∷ codes "isPrototypeOf"
    ∷ codes "propertyIsEnumerable"
    ∷ codes "toLocaleString"
    ∷ codes "toString"
    ∷ codes "valueOf"
    ∷ []

-- A variant of the row, or a member that its object inherits, which has no key.
pub data Picked : Type 0 where
  own : VariantRecord → Picked
  inherited : Picked

abbrev pub owned : Option VariantRecord → Option Picked
owned none = none
owned (some v) = some (own v)

-- `variants[name]`
unfoldable pub picked : (name : Text) → List VariantRecord → Option Picked
picked name vs =
    or_else (owned (find (λ v. text_eq v.variant name) vs))
      (if any (text_eq name) prototype_members then some inherited else none)

-- `variants[name] ?? variants.card ?? Object.values(variants)[0]`
unfoldable pub chosen : (name : Text) → List VariantRecord → Option Picked
unfolding picked
chosen name vs =
    or_else (picked name vs)
      (owned (or_else (find (λ v. text_eq v.variant (codes "card")) vs) (first_variant vs)))

-- `storage.get(chosen.key)`, which answers null for a key that it cannot read.
abbrev pub served : Option Picked → Store → Option StoredObject
served none s = none
served (some inherited) s = none
served (some (own v)) s = find (λ o. key_eq o.key v.key) s.objects

abbrev pub streamed : Option MediaRow → (name : Text) → Store → Option StoredObject
streamed none name s = none
streamed (some r) name s = if is_ready r.status then served (chosen name r.variants) s else none

unfoldable pub stream_variant :
    (media_id : ℕ) → (name : Text) → (context : Option ℕ) → Store → Option StoredObject
stream_variant media_id name context s =
    streamed (find (λ r. has_id media_id r && readable context s r) s.media) name s

-- `ORDER BY sort_order ASC, id ASC`
abbrev pub gallery_order : MediaRow → MediaRow → Bool
gallery_order a b = ltb a.sort_order b.sort_order || (a.sort_order == b.sort_order && leb a.id b.id)

unfoldable pub list_for_listing : (listing_id : ℕ) → (context : Option ℕ) → Store → List MediaRow
list_for_listing listing_id context s = sort_by gallery_order (
    rows_where (λ r. r.listing_id == listing_id && is_ready r.status && readable context s r)
      s.media)

unfoldable pub list_for_admin : (listing_id org : ℕ) → Store → List MediaRow
list_for_admin listing_id org s =
    sort_by gallery_order
      (rows_where (λ r. r.listing_id == listing_id && media_readable org s r) s.media)
