-- ===== src/Session/Theft.antt =====
-- Reuse of a spent token: what is revoked then, and that a family that is dead stays dead.
use mathlib.Core.Bool.{false≢true}
use real_estate_webapp.Prelude.{
  ℕ, ◌+◌, ◌<◌, ◌≡◌, ◌∙◌, refl, sym, subst, ap, Bool, true, false, none, some, List, [], ◌∷◌, ◌==◌,
  is_some, arith, find, any, err, some-injective, Option-cases, Bool-cases, inl, inr,
  find_of_any-false, ==_iff, any-update_where, All-get_elem?,
}
use real_estate_webapp.Identity.{
  TokenRow, Db, RefreshTokenRecord, Meta, is_live_in, auth_revoke_token_family,
  auth_lookup_refresh_token, revoke_family, revoke_row, record_of,
}
use real_estate_webapp.Session.{
  Config, Moments, Draw, token_revoked, grace_ms, rotate_found, rotate, find_refresh_token,
}
use real_estate_webapp.Session.Families.{
  IsDead, revoke_all, revoke-IsDead, stamp-IsDead, insert-IsDead,
}
use real_estate_webapp.Session.Snapshots.{IsSnapshot, is_of}
use real_estate_webapp.Session.Interleaving.{
  World, Step, looked_up, issued, exchanged, revoked_family, edited, Reach, here, next, Exchanged,
  same, replaced, rotate_tx-Exchanged, issue_inserts, IsValid, Reach-IsValid,
}

-- A dead family has no row that is not revoked.
dead_row :
    (f : ℕ) (p : TokenRow → Bool) (rows : List TokenRow) (r : TokenRow)
    → IsDead f rows
    → find p rows ≡ some r
    → r.family_id ≡ f
    → is_some r.revoked_at ≡ true
dead_row f p rows r d e same_family =
    ground (arith, find_of_any-false (is_live_in f) p rows r d.spent e)

-- A row that a dead family does not own.
apart_of_live :
    (f : ℕ) (p : TokenRow → Bool) (rows : List TokenRow) (r : TokenRow)
    → IsDead f rows
    → find p rows ≡ some r
    → r.revoked_at ≡ none
    → (r.family_id == f) ≡ false
apart_of_live f p rows r d e live =
    ground (arith, find_of_any-false (is_live_in f) p rows r d.spent e)

fresh_apart :
    (f g : ℕ) (rows : List TokenRow) → any (is_of g) rows ≡ false → IsDead f rows → (g == f) ≡ false
fresh_apart f g rows n d = elim (Bool-cases (g == f)) [
  | inl e ↦
      let n' : any (is_of f) rows ≡ false =
        subst (λ x. any (is_of x) rows ≡ false) ((==_iff g f).0 e) n in
      absurd (false≢true (sym n' ∙ d.known))
  | inr e ↦ e
]

family_of_find :
    (p : TokenRow → Bool) (rows : List TokenRow) (r : TokenRow)
    → find p rows ≡ some r
    → any (is_of r.family_id) rows ≡ true
unfolding find any
family_of_find p [] r e = ground arith
family_of_find p (x ∷ rows) r e = ground (arith, family_of_find p rows r)

module _ (hash : ℕ → ℕ) (cfg : Config) where
  exchange-IsDead :
      (f : ℕ) (rows after : List TokenRow) (presented : RefreshTokenRecord)
      → IsSnapshot rows presented
      → Exchanged hash cfg presented rows after
      → IsDead f rows
      → IsDead f after
  exchange-IsDead f rows after presented s (same e) d = subst (IsDead f) (sym e) d
  exchange-IsDead f rows after presented s (replaced locked row now e live family inserted) d =
      insert-IsDead f row _ after
        (ground (
          arith,
          some-injective locked s.row (sym e ∙ s.found),
          s.same_family,
          apart_of_live f _ rows locked d e live,
        ))
        inserted (stamp-IsDead f now _ rows d)

  Step-IsDead :
      (f : ℕ) {w v : World}
      → Step hash cfg w v
      → IsValid hash cfg w
      → IsDead f w.db.tokens
      → IsDead f v.db.tokens
  Step-IsDead f (looked_up w raw presented e) i d = d
  Step-IsDead f (issued w uid cid meta family draw now after n e) i d =
      let (row, of_family, inserted, _) =
        issue_inserts hash cfg uid cid meta family draw now w.db after e in
      insert-IsDead f row w.db.tokens after.tokens
        (fresh_apart f row.family_id w.db.tokens
          (subst (λ g. any (is_of g) w.db.tokens ≡ false) (sym of_family) n) d)
        inserted d
  Step-IsDead f (exchanged w n presented meta m draw outcome rows g e) i d =
      exchange-IsDead f w.db.tokens rows presented
        (All-get_elem? (IsSnapshot w.db.tokens) w.in_flight n presented i.snapshots g)
        (rotate_tx-Exchanged hash cfg presented meta m draw w.db.tokens rows outcome e) d
  Step-IsDead f (revoked_family w family now) i d = revoke-IsDead f family now w.db.tokens d
  Step-IsDead f (edited w users orgs) i d = d

  -- Once every token of a family is revoked, no interleaving of logins, rotations, logouts and edits
  -- gives the family a live token again.
  pub Reach-IsDead :
      (f : ℕ) {w v : World}
      → IsValid hash cfg w
      → Reach hash cfg w v
      → IsDead f w.db.tokens
      → IsDead f v.db.tokens
  Reach-IsDead f i here d = d
  Reach-IsDead f i (next r s) d =
      Step-IsDead f s (Reach-IsValid hash cfg i r) (Reach-IsDead f i r d)

  -- A token of a dead family is refused, and nothing changes.
  pub dead-rotate :
      (f raw : ℕ) (meta : Meta) (m : Moments) (draw : Draw) (db : Db)
      (presented : RefreshTokenRecord)
      → IsDead f db.tokens
      → find_refresh_token hash cfg raw db ≡ some presented
      → presented.family_id ≡ f
      → rotate hash cfg raw meta m draw db ≡ (err token_revoked, db)
  unfolding rotate rotate_found find_refresh_token auth_lookup_refresh_token
  dead-rotate f raw meta m draw db presented d e own =
      elim (Option-cases (find (λ r. r.token_hash == hash raw) db.tokens)) [
        | inl missing ↦ absurd (ground arith)
        | inr (r, found) ↦
            let p : record_of db r ≡ presented =
              some-injective (record_of db r) presented (rw found at e) in
            rw (found, dead_row f _ db.tokens r d found (ap (λ x. x.family_id) p ∙ own)) refl
      ]

  -- The rows of the family that a reuse leaves behind.
  pub revoked-IsDead :
      (family now : ℕ) (db : Db)
      → any (is_of family) db.tokens ≡ true
      → IsDead family (revoke_family family now db).0.tokens
  unfolding revoke_family auth_revoke_token_family
  revoked-IsDead family now db known = record {
    known =
        any-update_where (is_of family) (is_live_in family) (revoke_row now) (λ r. refl) db.tokens
        ∙ known;
    spent = revoke_all family now db.tokens;
  }

  -- What a request that presents a token long spent finds: the row was read, is not revoked, has not
  -- run out, and was used more than the grace window before the lock.
  pub record IsLateReuse (raw : ℕ) (m : Moments) (db : Db) (presented : RefreshTokenRecord)
      : Type 0 where
    pub used : ℕ
    pub found : find_refresh_token hash cfg raw db ≡ some presented
    pub unrevoked : presented.revoked_at ≡ none
    pub unexpired : m.checked < presented.expires_at
    pub spent : presented.used_at ≡ some used
    pub late : used + grace_ms cfg < m.locked
