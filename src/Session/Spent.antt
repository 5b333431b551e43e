-- ===== src/Session/Spent.antt =====
-- The rotation grace window ends: a token's first use is never forgotten or moved.
use real_estate_webapp.Prelude.{
  ℕ, ◌+◌, ◌<◌, ◌≡◌, ◌≢◌, refl, sym, subst, some, List, ◌==◌, if◌then◌else◌, arith, find,
  update_where, ok, find-update_where, Bool,
}
use real_estate_webapp.Identity.{
  TokenRow, Db, RefreshTokenRecord, Meta, insert_token, is_live_in, revoke_row,
  auth_revoke_token_family,
}
use real_estate_webapp.Session.{
  Config, Moments, Draw, stamp_used, grace_ms, rotate_locked, rotate_tx, rotate_settled,
  rotate_found,
}
use real_estate_webapp.Session.Snapshots.{insert-find}
use real_estate_webapp.Session.Interleaving.{
  World, Step, looked_up, issued, exchanged, revoked_family, edited, Reach, here, next, Exchanged,
  same, replaced, rotate_tx-Exchanged, issue_inserts,
}

-- The token's row records its first use.
pub record IsSpent (i used : ℕ) (rows : List TokenRow) : Type 0 where
  pub row : TokenRow
  pub found : find (λ r. r.id == i) rows ≡ some row
  pub stamped : row.used_at ≡ some used

update-IsSpent :
    (i used : ℕ) (p : TokenRow → Bool) (f : TokenRow → TokenRow) (rows : List TokenRow)
    → ((r : TokenRow) → (f r).id ≡ r.id)
    → ((r : TokenRow) → r.used_at ≡ some used → (f r).used_at ≡ some used)
    → IsSpent i used rows
    → IsSpent i used (update_where p f rows)
update-IsSpent i used p f rows h k s = record {
  row = if p s.row then f s.row else s.row;
  found = find-update_where (λ r. r.id == i) p f (λ r. rw (h r) refl) rows s.row s.found;
  stamped = ground (arith, s.stamped, k s.row);
}

insert-IsSpent :
    (i used : ℕ) (row : TokenRow) (rows after : List TokenRow)
    → insert_token row rows ≡ some after
    → IsSpent i used rows
    → IsSpent i used after
insert-IsSpent i used row rows after e s = record {
  row = s.row;
  found = insert-find row rows after i s.row e s.found;
  stamped = s.stamped;
}

module _ (hash : ℕ → ℕ) (cfg : Config) where
  exchange-IsSpent :
      (i used : ℕ) (presented : RefreshTokenRecord) (rows after : List TokenRow)
      → Exchanged hash cfg presented rows after
      → IsSpent i used rows
      → IsSpent i used after
  exchange-IsSpent i used presented rows after (same e) s = subst (IsSpent i used) (sym e) s
  exchange-IsSpent i used presented rows after (replaced locked row now f live own e) s =
      insert-IsSpent i used row _ after e
        (update-IsSpent i used _ (stamp_used now) rows (λ r. refl) (λ r h. ground (arith, h)) s)

  revoke-IsSpent :
      (i used family now : ℕ) (rows : List TokenRow)
      → IsSpent i used rows
      → IsSpent i used (auth_revoke_token_family family now rows).0
  unfolding auth_revoke_token_family
  revoke-IsSpent i used family now rows =
      update-IsSpent i used (is_live_in family) (revoke_row now) rows (λ r. refl) (λ r h. h)

  Step-IsSpent :
      (i used : ℕ) {w v : World}
      → Step hash cfg w v
      → IsSpent i used w.db.tokens
      → IsSpent i used v.db.tokens
  Step-IsSpent i used (looked_up w raw presented e) s = s
  Step-IsSpent i used (issued w uid cid meta family draw now after n e) s =
      let (row, _, inserted, _) =
        issue_inserts hash cfg uid cid meta family draw now w.db after e in
      insert-IsSpent i used row w.db.tokens after.tokens inserted s
  Step-IsSpent i used (exchanged w n presented meta m draw outcome rows g e) s =
      exchange-IsSpent i used presented w.db.tokens rows
        (rotate_tx-Exchanged hash cfg presented meta m draw w.db.tokens rows outcome e) s
  Step-IsSpent i used (revoked_family w family now) s =
      revoke-IsSpent i used family now w.db.tokens s
  Step-IsSpent i used (edited w users orgs) s = s

  pub Reach-IsSpent :
      (i used : ℕ) {w v : World}
      → Reach hash cfg w v
      → IsSpent i used w.db.tokens
      → IsSpent i used v.db.tokens
  Reach-IsSpent i used here s = s
  Reach-IsSpent i used (next r st) s = Step-IsSpent i used st (Reach-IsSpent i used r s)

  late_is_refused :
      (used : ℕ) (presented : RefreshTokenRecord) (meta : Meta) (m : Moments) (draw : Draw)
      (db : Db) (out : RefreshTokenRecord × ℕ)
      → IsSpent presented.id used db.tokens
      → used + grace_ms cfg < m.locked
      → (rotate_found hash cfg (some presented) meta m draw db).0 ≢ ok out
  unfolding rotate_found rotate_tx rotate_locked rotate_settled
  late_is_refused used presented meta m draw db out s late = rw s.found (ground (arith, s.stamped))

  -- However requests interleave, and whenever a request read its record, a token used at a given
  -- time yields no new token once the grace window after that time is over.
  pub spent_after_grace :
      (used : ℕ) (w v : World) (presented : RefreshTokenRecord) (meta : Meta) (m : Moments)
      (draw : Draw) (out : RefreshTokenRecord × ℕ)
      → IsSpent presented.id used w.db.tokens
      → Reach hash cfg w v
      → used + grace_ms cfg < m.locked
      → (rotate_found hash cfg (some presented) meta m draw v.db).0 ≢ ok out
  spent_after_grace used w v presented meta m draw out s r late =
      late_is_refused used presented meta m draw v.db out (Reach-IsSpent presented.id used r s) late
