-- ===== src/Media/Servable.antt =====
-- A photo that is ready can be served: all its objects are in the storage.
use real_estate_webapp.Prelude.{
  ℕ, suc, ◌≡◌, sym, ap, subst, refl, ◌⊎◌, inl, inr, Bool, true, false, not, ◌&&◌, Option, List, [],
  ◌∷◌, map, ◌==◌, ltb, Bool-cases, Option-cases, arith, any, update_where, length, All, All-map,
  Result, ok, err, Text, text_eq_refl,
}
use real_estate_webapp.Media.{
  Key, key_eq, original_key, variant_key, VariantRecord, MediaRow, StoredObject, ProcessedVariant,
  Processed, ProcessError, unsupported_image, other_failure, Store, is_ready,
}
use real_estate_webapp.Media.Service.{
  listing_writable, find_by_checksum, reserved, has_id, marked_ready, marked_failed, Written,
  put_all, variant_record, uploads, is_empty, settled, on_processed, max_bytes, upload,
}

abbrev pub is_stored : Key → List StoredObject → Bool
is_stored k objects = any (λ o. key_eq o.key k) objects

abbrev pub HasVariant : List StoredObject → MediaRow → VariantRecord → Type 0
HasVariant objects r v =
    (v.key ≡ variant_key r.listing_id r.id v.variant) × (is_stored v.key objects ≡ true)

-- The original and every variant of the row, each under the row's own key.
abbrev pub HasObjects : List StoredObject → MediaRow → Type 0
HasObjects objects r =
    (is_stored (original_key r.listing_id r.id) objects ≡ true)
    × All (HasVariant objects r) r.variants

abbrev pub IsServable : List StoredObject → MediaRow → Type 0
IsServable objects r = (is_ready r.status ≡ false) ⊎ HasObjects objects r

-- No row is ready that cannot be served.
abbrev pub IsConsistent : Store → Type 0
IsConsistent s = All (IsServable s.objects) s.media

pub key_eq_refl : (k : Key) → key_eq k k ≡ true
unfolding key_eq
key_eq_refl k = elim (Option-cases k.name) [
  | inl none_named ↦ rw (none_named) (ground arith)
  | inr (t, named) ↦ rw (named) (ground (arith, text_eq_refl t))
]

put_all-grows :
    (puts : ℕ → Bool) (n : ℕ) (os objects : List StoredObject) (k : Key)
    → is_stored k objects ≡ true
    → is_stored k (put_all puts n os objects).objects ≡ true
unfolding put_all any
put_all-grows puts n [] objects k h = h
put_all-grows puts n (o ∷ os) objects k h = elim (Bool-cases (puts n)) [
  | inl on ↦ rw (on) (put_all-grows puts (suc n) os (o ∷ objects) k (ground (arith, h)))
  | inr off ↦ rw (off) h
]

put_all-stores :
    (puts : ℕ → Bool) (n : ℕ) (os objects : List StoredObject)
    → (put_all puts n os objects).done ≡ true
    → All (λ o. is_stored o.key (put_all puts n os objects).objects ≡ true) os
unfolding put_all any
put_all-stores puts n [] objects h = tt
put_all-stores puts n (o ∷ os) objects h = elim (Bool-cases (puts n)) [
  | inl on ↦
      let out : put_all puts n (o ∷ os) objects ≡ put_all puts (suc n) os (o ∷ objects) =
        rw (on) refl in
      subst (λ (w : Written). All (λ x. is_stored x.key w.objects ≡ true) (o ∷ os)) (sym out)
        (
          put_all-grows puts (suc n) os (o ∷ objects) o.key (ground (arith, key_eq_refl o.key)),
          put_all-stores puts (suc n) os (o ∷ objects) (rw (on) at h),
        )
  | inr off ↦ ground (arith, off, h)
]

IsServable-grows :
    (objects more : List StoredObject) (r : MediaRow)
    → ((k : Key) → is_stored k objects ≡ true → is_stored k more ≡ true)
    → IsServable objects r
    → IsServable more r
IsServable-grows objects more r grow (inl idle) = inl idle
IsServable-grows objects more r grow (inr (original, variants)) = inr (
  grow (original_key r.listing_id r.id) original,
  All-map (HasVariant objects r) (HasVariant more r) (λ v h. (h.0, grow v.key h.1)) r.variants
      variants,
)

-- Splitting what `uploads` stored.
uploaded :
    (listing_id media_id : ℕ) (vs : List ProcessedVariant) (buffer : List ℕ)
    → (objects : List StoredObject)
    → All (λ o. is_stored o.key objects ≡ true) (uploads listing_id media_id vs buffer)
    → (is_stored (original_key listing_id media_id) objects ≡ true)
      × All
          (λ (v : VariantRecord).
            (v.key ≡ variant_key listing_id media_id v.variant) × (is_stored v.key objects ≡ true))
          (map (variant_record listing_id media_id) vs)
uploaded listing_id media_id [] buffer objects (h, _) = (h, tt)
uploaded listing_id media_id (v ∷ vs) buffer objects (h, hs) =
    let rest = uploaded listing_id media_id vs buffer objects hs in (rest.0, ((refl, h), rest.1))

pub update_where-none {ℓ} :
    {A : Type ℓ} (p : A → Bool) (f : A → A) (xs : List A)
    → any p xs ≡ false
    → update_where p f xs ≡ xs
unfolding any update_where
update_where-none p f [] h = refl
update_where-none p f (x ∷ xs) h =
    let off : p x ≡ false = ground (arith, h) in
    rw (off) (ap (◌∷◌ x) (update_where-none p f xs (ground (arith, h))))

settled-IsConsistent :
    (puts : ℕ → Bool) (listing_id new_id : ℕ) (buffer : List ℕ) (caption : Option Text)
    → (p : Processed) (s : Store) → any (has_id new_id) s.media ≡ false
    → IsConsistent s
    → let w = put_all puts 0 (uploads listing_id new_id p.variants buffer) s.objects in
      IsConsistent
        (settled w listing_id new_id p (reserved listing_id new_id caption s ∷ s.media) s).store
unfolding update_where
settled-IsConsistent puts listing_id new_id buffer caption p s fresh good =
    let files = uploads listing_id new_id p.variants buffer in
    let w = put_all puts 0 files s.objects in
    let old : All (IsServable w.objects) s.media =
      All-map (IsServable s.objects) (IsServable w.objects)
        (λ r h. IsServable-grows s.objects w.objects r (put_all-grows puts 0 files s.objects) h)
        s.media good in
    let rest = λ (f : MediaRow → MediaRow). update_where-none (has_id new_id) f s.media fresh in
    let self : new_id == new_id ≡ true = ground arith in
    elim (Bool-cases (w.done && not (is_empty p.variants))) [
      | inr bad ↦ rw (bad, self, rest marked_failed) (inl refl, old)
      | inl fine ↦
          let all_put : w.done ≡ true = ground (arith, fine) in
          let stored = put_all-stores puts 0 files s.objects all_put in
          rw (fine, self, rest (marked_ready listing_id new_id p))
            (inr (uploaded listing_id new_id p.variants buffer w.objects stored), old)
    ]

processed :
    (r : Result {0, 0} ProcessError Processed) (puts : ℕ → Bool)
    → (listing_id new_id : ℕ) (buffer : List ℕ) (caption : Option Text) (s : Store)
    → any (has_id new_id) s.media ≡ false
    → IsConsistent s
    → IsConsistent (on_processed r puts listing_id new_id buffer caption s).store
processed (err (unsupported_image message)) puts listing_id new_id buffer caption s fresh good =
    good
processed (err other_failure) puts listing_id new_id buffer caption s fresh good = good
processed (ok p) puts listing_id new_id buffer caption s fresh good =
    elim (Option-cases (find_by_checksum listing_id p.checksum s)) [
      | inr (r, there) ↦ rw (there) good
      | inl new ↦
          rw (new) (settled-IsConsistent puts listing_id new_id buffer caption p s fresh good)
    ]

-- An upload keeps every photo servable: whichever writes to the object storage fail, and whatever the
-- answer, a row that is ready afterwards has its original and all its variants in the storage, under
-- its own keys. The id of the new row is fresh.
pub upload-IsConsistent :
    (process : List ℕ → Result {0, 0} ProcessError Processed) (puts : ℕ → Bool)
    → (listing_id org new_id : ℕ) (buffer : List ℕ) (caption : Option Text) (s : Store)
    → any (has_id new_id) s.media ≡ false
    → IsConsistent s
    → IsConsistent (upload process puts listing_id org new_id buffer caption s).store
unfolding upload
upload-IsConsistent process puts listing_id org new_id buffer caption s fresh good =
    elim (Bool-cases (length buffer == 0)) [
      | inl empty ↦ rw (empty) good
      | inr some_bytes ↦ elim (Bool-cases (ltb max_bytes (length buffer))) [
        | inl large ↦ rw (some_bytes, large) good
        | inr fits ↦ elim (Bool-cases (listing_writable listing_id org s)) [
          | inr refused ↦ rw (some_bytes, fits, refused) good
          | inl ours ↦
              rw (some_bytes, fits, ours)
                (processed (process buffer) puts listing_id new_id buffer caption s fresh good)
        ]
      ]
    ]
