-- ===== src/Session/Interleaving.antt =====
-- Requests that run side by side: a rotation reads its record first and locks the row later, and
-- anything may commit in between. One step is one transaction.
use real_estate_webapp.Prelude.{
  ℕ, ◌+◌, ◌≡◌, ◌∙◌, refl, sym, subst, Bool, true, false, Option, none, some, List, ◌∷◌, ◌==◌, arith,
  find, any, update_where, ok, get_elem?, All, All-map, Bool-cases, Option-cases, inl, inr,
}
use real_estate_webapp.Identity.{
  TokenRow, UserRow, OrgRow, Db, RefreshTokenRecord, Meta, insert_token, is_live_in, revoke_row,
  auth_revoke_token_family, auth_lookup_refresh_token, new_row,
}
use real_estate_webapp.Session.{
  Config, Moments, Draw, RotateOutcome, stamp_used, past_grace, grace_ms, refresh_ttl_ms,
  rotate_locked, rotate_tx, issue_refresh_token, successor,
}
use real_estate_webapp.Session.Snapshots.{
  IsSnapshot, distinct, is_of, Keeps, lookup-IsSnapshot, stamp_used-Keeps, revoke_row-Keeps,
  distinct-update, update-IsSnapshot, insert-distinct, insert-IsSnapshot,
}

-- The database, and the records that requests hold between their read and their transaction.
pub record World : Type 0 where
  pub db : Db
  pub in_flight : List RefreshTokenRecord

abbrev pub with_tokens : World → List TokenRow → World
with_tokens w rows = record w { db = record w.db { tokens = rows } }

module _ (hash : ℕ → ℕ) (cfg : Config) where
  pub data Step : World → World → Type 0 where
    looked_up :
        (w : World) (raw : ℕ) (presented : RefreshTokenRecord)
        → auth_lookup_refresh_token (hash raw) w.db ≡ some presented
        → Step w (record w { in_flight = presented ∷ w.in_flight })
    -- `randomUUID` gives a family that no row has.
    issued :
        (w : World) (uid cid : Option ℕ) (meta : Meta) (family : ℕ) (draw : Draw) (now : ℕ)
        (after : Db)
        → any (is_of family) w.db.tokens ≡ false
        → issue_refresh_token hash cfg uid cid meta family draw now w.db ≡ ok after
        → Step w (record w { db = after })
    exchanged :
        (w : World) (i : ℕ) (presented : RefreshTokenRecord) (meta : Meta) (m : Moments)
        (draw : Draw) (outcome : RotateOutcome) (rows : List TokenRow)
        → get_elem? w.in_flight i ≡ some presented
        → rotate_tx hash cfg presented meta m draw w.db.tokens ≡ ok (outcome, rows)
        → Step w (with_tokens w rows)
    revoked_family :
        (w : World) (family now : ℕ)
        → Step w (with_tokens w (auth_revoke_token_family family now w.db.tokens).0)
    -- Staff and organisations are edited elsewhere.
    edited :
        (w : World) (users : List UserRow) (orgs : List OrgRow)
        → Step w (record w { db = record { tokens = w.db.tokens; users = users; orgs = orgs } })

  pub data Reach (w : World) : World → Type 0 where
    here : Reach w w
    next : {u v : World} → Reach w u → Step u v → Reach w v

  -- What one locked exchange does to the table.
  pub data Exchanged (presented : RefreshTokenRecord) (rows after : List TokenRow) : Type 0 where
    same : after ≡ rows → Exchanged presented rows after
    replaced :
        (locked row : TokenRow) (now : ℕ)
        → find (λ r. r.id == presented.id) rows ≡ some locked
        → locked.revoked_at ≡ none
        → row.family_id ≡ presented.family_id
        → insert_token row (update_where (λ r. r.id == presented.id) (stamp_used now) rows)
          ≡ some after
        → Exchanged presented rows after

  rotate_locked-Exchanged :
      (presented : RefreshTokenRecord) (meta : Meta) (m : Moments) (draw : Draw)
      (rows after : List TokenRow) (outcome : RotateOutcome) (locked : TokenRow)
      → find (λ r. r.id == presented.id) rows ≡ some locked
      → rotate_locked hash cfg presented meta m draw rows (some locked) ≡ ok (outcome, after)
      → Exchanged presented rows after
  unfolding rotate_locked
  rotate_locked-Exchanged presented meta m draw rows after outcome locked f e =
      elim (Option-cases locked.revoked_at) [
        | inr (t, stamped) ↦ same (ground arith)
        | inl unrevoked ↦ elim (Bool-cases (past_grace (grace_ms cfg) m.locked locked.used_at)) [
          | inl late ↦ same (ground arith)
          | inr timely ↦
              replaced locked (successor hash cfg presented meta m draw) m.committed f unrevoked
                refl (ground arith)
        ]
      ]

  pub rotate_tx-Exchanged :
      (presented : RefreshTokenRecord) (meta : Meta) (m : Moments) (draw : Draw)
      (rows after : List TokenRow) (outcome : RotateOutcome)
      → rotate_tx hash cfg presented meta m draw rows ≡ ok (outcome, after)
      → Exchanged presented rows after
  unfolding rotate_tx rotate_locked
  rotate_tx-Exchanged presented meta m draw rows after outcome e =
      elim (Option-cases (find (λ r. r.id == presented.id) rows)) [
        | inl missing ↦ same (ground arith)
        | inr (locked, f) ↦
            rotate_locked-Exchanged presented meta m draw rows after outcome locked f (rw f at e)
      ]

  -- The uniqueness constraints hold, and what is in flight was read from the table.
  pub record IsValid (w : World) : Type 0 where
    pub unique : distinct w.db.tokens ≡ true
    pub snapshots : All (IsSnapshot w.db.tokens) w.in_flight

  update-IsValid :
      (f : TokenRow → TokenRow) (k : Keeps f) (p : TokenRow → Bool) (w : World)
      → IsValid w
      → IsValid (with_tokens w (update_where p f w.db.tokens))
  update-IsValid f k p w v = record {
    unique = distinct-update f k p w.db.tokens ∙ v.unique;
    snapshots =
        All-map (IsSnapshot w.db.tokens) (IsSnapshot (update_where p f w.db.tokens))
          (update-IsSnapshot f k p w.db.tokens) w.in_flight v.snapshots;
  }

  revoke-IsValid :
      (w : World) (family now : ℕ)
      → IsValid w
      → IsValid (with_tokens w (auth_revoke_token_family family now w.db.tokens).0)
  unfolding auth_revoke_token_family
  revoke-IsValid w family now v =
      update-IsValid (revoke_row now) (revoke_row-Keeps now) (is_live_in family) w v

  insert-IsValid :
      (w : World) (row : TokenRow) (after : List TokenRow)
      → insert_token row w.db.tokens ≡ some after
      → IsValid w
      → IsValid (with_tokens w after)
  insert-IsValid w row after e v = record {
    unique = insert-distinct row w.db.tokens after e v.unique;
    snapshots =
        All-map (IsSnapshot w.db.tokens) (IsSnapshot after)
          (λ presented. insert-IsSnapshot row w.db.tokens after presented e) w.in_flight
          v.snapshots;
  }

  exchange-IsValid :
      (w : World) (presented : RefreshTokenRecord) (after : List TokenRow)
      → Exchanged presented w.db.tokens after
      → IsValid w
      → IsValid (with_tokens w after)
  exchange-IsValid w presented after (same e) v =
      subst (λ rows. IsValid (with_tokens w rows)) (sym e) v
  exchange-IsValid w presented after (replaced locked row now f n g e) v =
      insert-IsValid _ row after e (update-IsValid (stamp_used now) (stamp_used-Keeps now) _ w v)

  -- `issueRefreshToken` only adds a row, of the family that it was given.
  pub issue_inserts :
      (uid cid : Option ℕ) (meta : Meta) (family : ℕ) (draw : Draw) (now : ℕ) (db after : Db)
      → issue_refresh_token hash cfg uid cid meta family draw now db ≡ ok after
      → (row : TokenRow) × (row.family_id ≡ family)
        × (insert_token row db.tokens ≡ some after.tokens)
        × (after ≡ record db { tokens = after.tokens })
  unfolding issue_refresh_token
  issue_inserts uid cid meta family draw now db after e = (
    new_row draw.row_id uid cid family (hash draw.raw) (now + refresh_ttl_ms cfg) meta,
    refl,
    ground arith,
    ground arith,
  )

  pub Step-IsValid : {w v : World} → Step w v → IsValid w → IsValid v
  Step-IsValid (looked_up w raw presented e) i = record {
    unique = i.unique;
    snapshots = (lookup-IsSnapshot (hash raw) w.db presented i.unique e, i.snapshots);
  }
  Step-IsValid (issued w uid cid meta family draw now after n e) i =
      let (row, _, inserted, only) = issue_inserts uid cid meta family draw now w.db after e in
      subst (λ db. IsValid (record w { db = db })) (sym only)
        (insert-IsValid w row after.tokens inserted i)
  Step-IsValid (exchanged w n presented meta m draw outcome rows g e) i =
      exchange-IsValid w presented rows
        (rotate_tx-Exchanged presented meta m draw w.db.tokens rows outcome e) i
  Step-IsValid (revoked_family w family now) i = revoke-IsValid w family now i
  Step-IsValid (edited w users orgs) i = record { unique = i.unique; snapshots = i.snapshots }

  -- In whatever order requests read, mint, exchange and revoke, tokens keep distinct ids and digests,
  -- and every record that a request holds agrees with its row on the family and the principal.
  pub Reach-IsValid : {w v : World} → IsValid w → Reach w v → IsValid v
  Reach-IsValid i here = i
  Reach-IsValid i (next r s) = Step-IsValid s (Reach-IsValid i r)
