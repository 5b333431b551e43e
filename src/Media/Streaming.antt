-- ===== src/Media/Streaming.antt =====
-- `streamVariant` of media.service.ts: what is sent for a photo.
use real_estate_webapp.Prelude.{
  any, false, All-find, find_of_any, ℕ, ◌≡◌, ◌∙◌, ap, subst, refl, inl, inr, Bool, true, ◌&&◌, none,
  some, List, ◌∷◌, if◌then◌else◌, Option-cases, Option, arith, find, All, Text, codes, text_eq,
}
use real_estate_webapp.Media.{key_eq, VariantRecord, MediaRow, StoredObject, Store, is_ready}
use real_estate_webapp.Media.Service.{has_id}
use real_estate_webapp.Media.Reads.{
  prototype_members, own, picked, readable, chosen, served, streamed, stream_variant,
}
use real_estate_webapp.Media.Servable.{HasVariant, IsServable, IsConsistent}

-- One of the variants is chosen, whatever name is asked for that is no member of every object.
chosen_one :
    (P : VariantRecord → Type 0) (name : Text) (v : VariantRecord) (vs : List VariantRecord)
    → any (text_eq name) prototype_members ≡ false
    → All P (v ∷ vs)
    → (c : VariantRecord) × (chosen name (v ∷ vs) ≡ some (own c)) × P c
unfolding chosen picked
chosen_one P name v vs plain h = elim (Option-cases (find (λ x. text_eq x.variant name) (v ∷ vs))) [
  | inr (c, named) ↦ rw (named) (c, refl, All-find P _ (v ∷ vs) c h named)
  | inl unnamed ↦ elim (Option-cases (find (λ x. text_eq x.variant (codes "card")) (v ∷ vs))) [
    | inr (c, card) ↦ rw (unnamed, plain, card) (c, refl, All-find P _ (v ∷ vs) c h card)
    | inl cardless ↦ rw (unnamed, plain, cardless) (v, refl, h.0)
  ]
]

-- A photo that is shown is always sent: where no row is ready that cannot be served, whoever asks for
-- a photo that is ready, has a variant at least, and stands on a listing the caller may see, gets an
-- object of the storage, whatever variant the request names, also one that does not exist, unless the
-- name is one of the twelve members that every object of JavaScript inherits.
pub stream_variant-served :
    (media_id : ℕ) (name : Text) (context : Option ℕ) (s : Store) (r : MediaRow) (v : VariantRecord)
    → (vs : List VariantRecord) → any (text_eq name) prototype_members ≡ false
    → IsConsistent s
    → find (λ x. has_id media_id x && readable context s x) s.media ≡ some r
    → is_ready r.status ≡ true
    → r.variants ≡ v ∷ vs
    → (o : StoredObject) × (stream_variant media_id name context s ≡ some o)
unfolding stream_variant
stream_variant-served media_id name context s r v vs plain good found is_up has =
    let servable =
      All-find (IsServable s.objects) (λ x. has_id media_id x && readable context s x) s.media r
        good found in
    elim servable [
      | inl idle ↦ ground (arith, idle, is_up)
      | inr (original, variants) ↦
          let (c, choice, (its_key, stored)) =
            chosen_one (HasVariant s.objects r) name v vs plain
              (subst (All (HasVariant s.objects r)) has variants) in
          let (o, there) = find_of_any (λ x. key_eq x.key c.key) s.objects stored in
          let answer : streamed (some r) name s ≡ served (chosen name r.variants) s =
            ap (λ (b : Bool). if b then served (chosen name r.variants) s else none) is_up in
          (
            o,
            ap (λ x. streamed x name s) found
                ∙ answer
                ∙ ap (λ ws. served (chosen name ws) s) has
                ∙ ap (λ x. served x s) choice
                ∙ there,
          )
    ]
