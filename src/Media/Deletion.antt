-- ===== src/Media/Deletion.antt =====
-- Which objects of the storage a removal deletes, and which it leaves.
use real_estate_webapp.Prelude.{
  some, none, eq_of_text_eq, ℕ, ◌≡◌, ◌∙◌, ap, refl, inl, inr, Bool, true, false, not, Option, List,
  [], ◌∷◌, map, ◌==◌, Bool-cases, arith, any, rows_where, All, All-map, Text,
}
use real_estate_webapp.Media.{
  name_eq, Key, key_eq, original_key, variant_key, all_keys_for, VariantRecord, MediaRow,
  StoredObject,
}
use real_estate_webapp.Media.Service.{delete_many}
use real_estate_webapp.Media.Servable.{key_eq_refl, is_stored, HasVariant, IsServable}

-- The keys of one photo are those of no other.
keys_apart :
    (a : Key) (listing_id media_id : ℕ) (names : List Text)
    → a.media_id == media_id ≡ false
    → any (key_eq a) (map (variant_key listing_id media_id) names) ≡ false
unfolding any key_eq
keys_apart a listing_id media_id [] h = refl
keys_apart a listing_id media_id (n ∷ ns) h =
    ground (arith, h, keys_apart a listing_id media_id ns h)

all_keys_apart :
    (a : Key) (listing_id media_id : ℕ) (names : List Text)
    → a.media_id == media_id ≡ false
    → any (key_eq a) (all_keys_for listing_id media_id names) ≡ false
unfolding any key_eq all_keys_for
all_keys_apart a listing_id media_id names h =
    ground (arith, h, keys_apart a listing_id media_id names h)

key_eq-media :
    (a k : Key) (media_id : ℕ)
    → key_eq a k ≡ true
    → k.media_id == media_id ≡ false
    → a.media_id == media_id ≡ false
unfolding key_eq
key_eq-media a k media_id same apart =
    let ids : a.media_id == k.media_id ≡ true = ground (arith, same) in ground (arith, ids, apart)

is_stored-delete :
    (k : Key) (listing_id media_id : ℕ) (names : List Text) (objects : List StoredObject)
    → k.media_id == media_id ≡ false
    → is_stored k objects ≡ true
    → is_stored k (delete_many (all_keys_for listing_id media_id names) objects) ≡ true
unfolding any delete_many rows_where
is_stored-delete k listing_id media_id names [] apart h = h
is_stored-delete k listing_id media_id names (o ∷ os) apart h =
    let keys = all_keys_for listing_id media_id names in
    elim (Bool-cases (any (key_eq o.key) keys)) [
      | inr kept ↦ elim (Bool-cases (key_eq o.key k)) [
        | inl this ↦ rw (kept, this) refl
        | inr that ↦
            rw (kept, that) (is_stored-delete k listing_id media_id names os apart (rw (that) at h))
      ]
      | inl gone ↦ elim (Bool-cases (key_eq o.key k)) [
        | inr that ↦
            rw (gone) (is_stored-delete k listing_id media_id names os apart (rw (that) at h))
        | inl this ↦
            let other : o.key.media_id == media_id ≡ false =
              key_eq-media o.key k media_id this apart in
            ground (arith, gone, all_keys_apart o.key listing_id media_id names other)
      ]
    ]

pub All-zip {ℓ} :
    {A : Type ℓ} (P Q : A → Type 0) (xs : List A) → All P xs → All Q xs → All (λ x. P x × Q x) xs
All-zip P Q [] hs ks = tt
All-zip P Q (x ∷ xs) (h, hs) (k, ks) = ((h, k), All-zip P Q xs hs ks)

pub IsServable-delete :
    (r x : MediaRow) (objects : List StoredObject) (names : List Text)
    → IsServable objects x
    → x.id == r.id ≡ false
    → IsServable (delete_many (all_keys_for r.listing_id r.id names) objects) x
IsServable-delete r x objects names (inl idle) other = inl idle
IsServable-delete r x objects names (inr (original, variants)) other =
    let left = delete_many (all_keys_for r.listing_id r.id names) objects in
    inr (
      is_stored-delete (original_key x.listing_id x.id) r.listing_id r.id names objects other
          original,
      All-map (HasVariant objects x) (HasVariant left x)
          (λ v h.
            let own : v.key.media_id ≡ x.id = ap (λ (k : Key). k.media_id) h.0 in
            (
              h.0,
              is_stored-delete v.key r.listing_id r.id names objects
                  (ap (λ (i : ℕ). i == r.id) own ∙ other) h.1,
            ))
          x.variants variants,
    )

name_eq-name : (a b : Option Text) → name_eq a b ≡ true → a ≡ b
name_eq-name none none h = refl
name_eq-name none (some t) h = absurd (ground (arith, h))
name_eq-name (some s) none h = absurd (ground (arith, h))
name_eq-name (some s) (some t) h = ap (λ x. some x) (eq_of_text_eq s t h)

key_eq-key : (a b : Key) → key_eq a b ≡ true → a ≡ b
unfolding key_eq
key_eq-key a b h =
    let listing : a.listing_id ≡ b.listing_id = ground (arith, h) in
    let media : a.media_id ≡ b.media_id = ground (arith, h) in
    let name = name_eq-name a.name b.name (ground (arith, h)) in
    λ i. record { listing_id = listing i; media_id = media i; name = name i }

-- What is deleted is gone.
pub delete_many-gone :
    (k : Key) (keys : List Key) (objects : List StoredObject)
    → any (key_eq k) keys ≡ true
    → is_stored k (delete_many keys objects) ≡ false
unfolding any delete_many rows_where
delete_many-gone k keys [] h = refl
delete_many-gone k keys (o ∷ os) h = elim (Bool-cases (key_eq o.key k)) [
  | inl this ↦
      let hit : any (key_eq o.key) keys ≡ true =
        ap (λ x. any (key_eq x) keys) (key_eq-key o.key k this) ∙ h in
      rw (hit) (delete_many-gone k keys os h)
  | inr other ↦ elim (Bool-cases (any (key_eq o.key) keys)) [
    | inl gone ↦ rw (gone) (delete_many-gone k keys os h)
    | inr kept ↦ rw (kept, other) (delete_many-gone k keys os h)
  ]
]

pub any-rows_where-not {ℓ} :
    {A : Type ℓ} (p : A → Bool) (xs : List A) → any p (rows_where (λ x. not (p x)) xs) ≡ false
unfolding any rows_where
any-rows_where-not p [] = refl
any-rows_where-not p (x ∷ xs) = elim (Bool-cases (p x)) [
  | inl on ↦ rw (on) (any-rows_where-not p xs)
  | inr off ↦ rw (off, off) (any-rows_where-not p xs)
]

pub any-variant_key :
    (k : Key) (keys : List Key)
    → any (key_eq k) keys ≡ true
    → (x : Key) → any (key_eq k) (x ∷ keys) ≡ true
unfolding any
any-variant_key k keys h x = ground (arith, h)

-- The keys of a list of variants are among those that are deleted for them.
pub variants_deleted :
    (listing_id media_id : ℕ) (vs : List VariantRecord) (keys : List Key)
    → ((k : Key)
        → any (key_eq k) (map (λ v. variant_key listing_id media_id v.variant) vs) ≡ true
        → any (key_eq k) keys ≡ true)
    → All (λ v. any (key_eq (variant_key listing_id media_id v.variant)) keys ≡ true) vs
unfolding any
variants_deleted listing_id media_id [] keys h = tt
variants_deleted listing_id media_id (v ∷ vs) keys h = (
  h (variant_key listing_id media_id v.variant)
      (ground (arith, key_eq_refl (variant_key listing_id media_id v.variant))),
  variants_deleted listing_id media_id vs keys (λ k e. h k (ground (arith, e))),
)

pub map-map_variant :
    (listing_id media_id : ℕ) (vs : List VariantRecord)
    → map (variant_key listing_id media_id) (map (λ (v : VariantRecord). v.variant) vs)
      ≡ map (λ v. variant_key listing_id media_id v.variant) vs
map-map_variant listing_id media_id [] = refl
map-map_variant listing_id media_id (v ∷ vs) =
    ap (◌∷◌ (variant_key listing_id media_id v.variant)) (map-map_variant listing_id media_id vs)
