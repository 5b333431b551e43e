-- ===== src/Media/Removal.antt =====
-- What a failed upload and a removal leave behind.
use real_estate_webapp.Prelude.{
  ◌⊎◌, some, ℕ, ◌≡◌, sym, refl, inl, inr, Bool, true, false, not, ◌&&◌, Option, List, ◌∷◌, ◌==◌,
  ltb, Bool-cases, Option-cases, arith, any, update_where, rows_where, length, All, Result, ok, err,
  err-ne-ok, Text,
}
use real_estate_webapp.Http.{HttpError, not_found}
use real_estate_webapp.Media.{
  original_key, variant_key, MediaRow, Processed, ProcessError, unsupported_image, other_failure,
  Store, Outcome, is_ready,
}
use real_estate_webapp.Media.Service.{
  listing_writable, find_by_checksum, reserved, has_id, marked_failed, Written, put_all, uploads,
  is_empty, settled, on_processed, max_bytes, upload, find_by_id,
}
use real_estate_webapp.Media.Servable.{is_stored, IsConsistent, update_where-none}

-- The photos that are shown.
abbrev pub shown : Store → List MediaRow
shown s = rows_where (λ r. is_ready r.status) s.media

settled-shown :
    (w : Written) (listing_id new_id : ℕ) (caption : Option Text) (p : Processed) (s : Store)
    → (e : HttpError) → any (has_id new_id) s.media ≡ false
    → let out = settled w listing_id new_id p (reserved listing_id new_id caption s ∷ s.media) s in
      out.answer ≡ err e → shown out.store ≡ shown s
unfolding update_where rows_where
settled-shown w listing_id new_id caption p s e fresh failed_ =
    let self : new_id == new_id ≡ true = ground arith in
    elim (Bool-cases (w.done && not (is_empty p.variants))) [
      | inl fine ↦ absurd (err-ne-ok _ _ (sym (rw (fine) at failed_)))
      | inr bad ↦ rw (bad, self, update_where-none (has_id new_id) marked_failed s.media fresh) refl
    ]

processed-shown :
    (r : Result {0, 0} ProcessError Processed) (puts : ℕ → Bool)
    → (listing_id new_id : ℕ) (buffer : List ℕ) (caption : Option Text) (s : Store) (e : HttpError)
    → any (has_id new_id) s.media ≡ false
    → (on_processed r puts listing_id new_id buffer caption s).answer ≡ err e
    → shown (on_processed r puts listing_id new_id buffer caption s).store ≡ shown s
processed-shown (err (unsupported_image m)) puts listing_id new_id buffer caption s e fresh h = refl
processed-shown (err other_failure) puts listing_id new_id buffer caption s e fresh h = refl
processed-shown (ok p) puts listing_id new_id buffer caption s e fresh h =
    elim (Option-cases (find_by_checksum listing_id p.checksum s)) [
      | inr (r, there) ↦ rw (there) refl
      | inl new ↦ rw (new) (
          settled-shown (put_all puts 0 (uploads listing_id new_id p.variants buffer) s.objects)
            listing_id new_id caption p s e fresh (rw (new) at h))
    ]

-- An upload that is answered with an error shows nothing new: the photos that are ready are the same
-- rows as before, whatever it had stored until it failed. The id of the new row is fresh.
pub failed_upload_hidden :
    (process : List ℕ → Result {0, 0} ProcessError Processed) (puts : ℕ → Bool)
    → (listing_id org new_id : ℕ) (buffer : List ℕ) (caption : Option Text) (s : Store)
    → (e : HttpError) → any (has_id new_id) s.media ≡ false
    → (upload process puts listing_id org new_id buffer caption s).answer ≡ err e
    → shown (upload process puts listing_id org new_id buffer caption s).store ≡ shown s
unfolding upload
failed_upload_hidden process puts listing_id org new_id buffer caption s e fresh h =
    elim (Bool-cases (length buffer == 0)) [
      | inl empty ↦ rw (empty) refl
      | inr some_bytes ↦ elim (Bool-cases (ltb max_bytes (length buffer))) [
        | inl large ↦ rw (some_bytes, large) refl
        | inr fits ↦ elim (Bool-cases (listing_writable listing_id org s)) [
          | inr refused ↦ rw (some_bytes, fits, refused) refl
          | inl ours ↦
              rw (some_bytes, fits, ours)
                (processed-shown (process buffer) puts listing_id new_id buffer caption s e fresh
                  (rw (some_bytes, fits, ours) at h))
        ]
      ]
    ]

-- What a removal leaves when it is granted: the row is gone and all other rows are there, and no object
-- is left under the key of its original or of one of its variants.
pub record IsGone (media_id : ℕ) (s after : Store) (r : MediaRow) : Type 0 where
  pub no_row : any (has_id media_id) after.media ≡ false
  pub others : after.media ≡ rows_where (λ x. not (has_id media_id x)) s.media
  pub no_original : is_stored (original_key r.listing_id r.id) after.objects ≡ false
  pub no_variant :
      All
        (λ v. is_stored (variant_key r.listing_id r.id v.variant) after.objects ≡ false)
        r.variants

-- A removal is granted for a photo that the caller can read on a listing of its own, and refused with
-- nothing changed for any other.
abbrev pub IsRemovedFrom : (media_id org : ℕ) → Store → Outcome (Unit {0}) → Type 0
IsRemovedFrom media_id org s out =
    ((r : MediaRow) × (find_by_id media_id org s ≡ some r)
      × (listing_writable r.listing_id org s ≡ true)
      × (out.answer ≡ ok tt)
      × IsGone media_id s out.store r
      × IsConsistent out.store)
    ⊎ (((r : MediaRow)
          → find_by_id media_id org s ≡ some r
          → listing_writable r.listing_id org s ≡ false)
        × (out.answer ≡ err (not_found "Media not found."))
        × (out.store ≡ s))
