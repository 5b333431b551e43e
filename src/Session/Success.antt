-- ===== src/Session/Success.antt =====
-- A rotation that is due succeeds, and its new token continues the same session.
use real_estate_webapp.Prelude.{
  ℕ, ◌<◌, ◌+◌, ◌≡◌, ◌∙◌, refl, ap, true, false, none, some, List, ◌∷◌, ◌==◌, if◌then◌else◌, is_some,
  get_or, arith, find, any, update_where, ok, find_holds, find_of_any-false, ==_iff,
  any-update_where, find-update_where,
}
use real_estate_webapp.Identity.{
  TokenRow, Db, RefreshTokenRecord, Meta, insert_token, conflicts, one_principal, record_of,
  auth_lookup_refresh_token,
}
use real_estate_webapp.Session.{
  Config, Moments, Draw, graced, rotated, stamp_used, past_grace, grace_ms, refresh_ttl_ms,
  successor, rotate_locked, rotate_tx, rotate_settled, rotate_found, rotate, find_refresh_token,
}
use real_estate_webapp.Session.Snapshots.{distinct, is_of, lookup_row}
use real_estate_webapp.Session.Spent.{IsSpent}

module _ (hash : ℕ → ℕ) (cfg : Config) where
  -- The token is known, unrevoked and unexpired, unused or within its grace window, and what the
  -- rotation draws is new to the table.
  pub record IsRenewable (raw : ℕ) (meta : Meta) (m : Moments) (draw : Draw) (db : Db)
      (presented : RefreshTokenRecord) : Type 0 where
    pub found : find_refresh_token hash cfg raw db ≡ some presented
    pub unrevoked : presented.revoked_at ≡ none
    pub unexpired : m.checked < presented.expires_at
    pub timely : past_grace (grace_ms cfg) m.locked presented.used_at ≡ false
    pub principal : one_principal presented.user_id presented.contact_id ≡ true
    pub fresh : any (conflicts (successor hash cfg presented meta m draw)) db.tokens ≡ false

  abbrev pub renewed_rows :
      RefreshTokenRecord → Meta → Moments → Draw → List TokenRow → List TokenRow
  renewed_rows presented meta m draw rows =
      successor hash cfg presented meta m draw
      ∷ update_where (λ r. r.id == presented.id) (stamp_used m.committed) rows

  insert_successor :
      (presented : RefreshTokenRecord) (meta : Meta) (m : Moments) (draw : Draw)
      (rows : List TokenRow)
      → one_principal presented.user_id presented.contact_id ≡ true
      → any (conflicts (successor hash cfg presented meta m draw)) rows ≡ false
      → insert_token
          (successor hash cfg presented meta m draw)
          (update_where (λ r. r.id == presented.id) (stamp_used m.committed) rows)
        ≡ some (renewed_rows presented meta m draw rows)
  unfolding insert_token
  insert_successor presented meta m draw rows p n =
      let n' =
        any-update_where (conflicts (successor hash cfg presented meta m draw))
          (λ r. r.id == presented.id) (stamp_used m.committed) (λ r. refl) rows
        ∙ n in
      rw (p, n') refl

  rotate_tx_renews :
      (presented : RefreshTokenRecord) (meta : Meta) (m : Moments) (draw : Draw)
      (rows : List TokenRow) (r : TokenRow)
      → find (λ x. x.id == presented.id) rows ≡ some r
      → r.revoked_at ≡ none
      → past_grace (grace_ms cfg) m.locked r.used_at ≡ false
      → one_principal presented.user_id presented.contact_id ≡ true
      → any (conflicts (successor hash cfg presented meta m draw)) rows ≡ false
      → rotate_tx hash cfg presented meta m draw rows
        ≡ ok
            (if is_some r.used_at then graced else rotated, renewed_rows presented meta m draw rows)
  unfolding rotate_tx rotate_locked
  rotate_tx_renews presented meta m draw rows r f live timely p n =
      rw f (ground (arith, live, timely, insert_successor presented meta m draw rows p n))

  pub renewal_result :
      (raw : ℕ) (meta : Meta) (m : Moments) (draw : Draw) (db : Db) (presented : RefreshTokenRecord)
      → distinct db.tokens ≡ true
      → IsRenewable raw meta m draw db presented
      → rotate hash cfg raw meta m draw db ≡ (
        ok (presented, draw.raw),
        record db { tokens = renewed_rows presented meta m draw db.tokens },
      )
  unfolding rotate rotate_found rotate_settled find_refresh_token
  renewal_result raw meta m draw db presented d l =
      let (r, _, found, p) = lookup_row (hash raw) db presented d l.found in
      rw l.found (
        ground (
          arith,
          l.unrevoked,
          l.unexpired,
          rotate_tx_renews presented meta m draw db.tokens r found
              (ap (λ x. x.revoked_at) p ∙ l.unrevoked)
              (ap (λ x. past_grace (grace_ms cfg) m.locked x.used_at) p ∙ l.timely) l.principal
              l.fresh,
        ))

  IsSpent-of_renewed :
      (presented : RefreshTokenRecord) (meta : Meta) (m : Moments) (draw : Draw)
      (rows : List TokenRow) (r : TokenRow)
      → find (λ x. x.id == presented.id) rows ≡ some r
      → r.used_at ≡ presented.used_at
      → any (conflicts (successor hash cfg presented meta m draw)) rows ≡ false
      → IsSpent presented.id
          (get_or presented.used_at m.committed)
          (renewed_rows presented meta m draw rows)
  unfolding find conflicts
  IsSpent-of_renewed presented meta m draw rows r f same_use n =
      let kept =
        find-update_where (λ x. x.id == presented.id) (λ x. x.id == presented.id)
          (stamp_used m.committed) (λ x. refl) rows r f in
      record {
        row = stamp_used m.committed r;
        found = ground (
          arith,
          kept,
          find_holds (λ x. x.id == presented.id) rows r f,
          find_of_any-false (conflicts (successor hash cfg presented meta m draw))
              (λ x. x.id == presented.id) rows r n f,
        );
        stamped = ground (arith, same_use);
      }

  -- The family of an exchanged token has rows.
  pub renewed-known :
      (presented : RefreshTokenRecord) (meta : Meta) (m : Moments) (draw : Draw)
      (rows : List TokenRow)
      → any (is_of presented.family_id) (renewed_rows presented meta m draw rows) ≡ true
  unfolding any
  renewed-known presented meta m draw rows =
      rw ((==_iff presented.family_id presented.family_id).1 refl) refl

  -- The row that follows a presented token: its family and its principal, for a full term.
  pub record Follows (presented : RefreshTokenRecord) (m : Moments) (row : TokenRow) : Type 0 where
    pub same_family : row.family_id ≡ presented.family_id
    pub same_user : row.user_id ≡ presented.user_id
    pub same_contact : row.contact_id ≡ presented.contact_id
    pub full_term : row.expires_at ≡ m.minted + refresh_ttl_ms cfg
    pub unused : row.used_at ≡ none
    pub unrevoked : row.revoked_at ≡ none

  -- A known, unrevoked, unexpired token that is unused or within its grace window is exchanged: the
  -- new token is found afterwards with the same family and principal, a full term, unused and
  -- unrevoked, and the presented one is marked used, at its first use if it was used before.
  pub rotate_renews :
      (raw : ℕ) (meta : Meta) (m : Moments) (draw : Draw) (db : Db) (presented : RefreshTokenRecord)
      → distinct db.tokens ≡ true
      → IsRenewable raw meta m draw db presented
      → let (answer, after) = rotate hash cfg raw meta m draw db in
        (answer ≡ ok (presented, draw.raw))
        × (find_refresh_token hash cfg draw.raw after
            ≡ some (record_of db (successor hash cfg presented meta m draw)))
        × Follows presented m (successor hash cfg presented meta m draw)
        × IsSpent presented.id (get_or presented.used_at m.committed) after.tokens
  unfolding find_refresh_token auth_lookup_refresh_token find
  rotate_renews raw meta m draw db presented d l =
      let (r, _, found, p) = lookup_row (hash raw) db presented d l.found in
      rw (renewal_result raw meta m draw db presented d l) (
        refl,
        rw ((==_iff (hash draw.raw) (hash draw.raw)).1 refl) refl,
        record {
          same_family = refl;
          same_user = refl;
          same_contact = refl;
          full_term = refl;
          unused = refl;
          unrevoked = refl;
        },
        IsSpent-of_renewed presented meta m draw db.tokens r found (ap (λ x. x.used_at) p) l.fresh,
      )
