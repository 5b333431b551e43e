-- ===== src/Session.antt =====
-- apps/api/src/identity/services/token.service.ts: refresh tokens, their rotation and revocation.
--
-- A raw token (256 random bits) is a number; SHA-256 is the parameter `hash`. What a call draws (a
-- uuid, random bytes) and each reading of a clock is an argument. A transaction that fails leaves
-- the table as it was.
use real_estate_webapp.Prelude.{
  ℕ, ◌-◌, ◌+◌, ◌*◌, Bool, false, Option, none, some, List, ltb, leb, ◌==◌, if◌then◌else◌, is_some,
  is_none, or_else, find, update_where, Result, ok, err,
}
pub mod Families
pub mod Snapshots
pub mod Interleaving
pub mod Theft
pub mod Spent
pub mod Success
mod Tests
use mathlib.Core.Bool.{xor}
use real_estate_webapp.Identity.{
  TokenRow, Db, RefreshTokenRecord, Meta, insert_token, new_row, revoke_family,
  auth_lookup_refresh_token,
}

pub record Config : Type 0 where
  pub jwt_refresh_ttl_days : ℕ
  pub refresh_rotation_grace_seconds : ℕ

pub data TokenError : Type 0 where
  needs_one_principal constraint_violated unknown_token token_revoked token_expired : TokenError
  reuse_detected : ℕ → TokenError

abbrev pub refresh_ttl_ms : Config → ℕ
refresh_ttl_ms cfg = cfg.jwt_refresh_ttl_days * 24 * 60 * 60 * 1000

abbrev pub grace_ms : Config → ℕ
grace_ms cfg = cfg.refresh_rotation_grace_seconds * 1000

-- The clock readings of one rotation: at the expiry check, when the successor is made, under the
-- lock, the transaction's `now()`, and the revocation's `now()`. `others` is what other requests
-- commit between the end of the transaction and the revocation, which is a transaction of its own.
pub record Moments : Type 0 where
  pub checked : ℕ
  pub minted : ℕ
  pub locked : ℕ
  pub committed : ℕ
  pub revoking : ℕ
  pub others : List TokenRow → List TokenRow

-- What a new token draws: the row's uuid and the raw bytes.
pub record Draw : Type 0 where
  pub row_id : ℕ
  pub raw : ℕ

pub data RotateOutcome : Type 0 where
  revoked reused graced rotated : RotateOutcome

abbrev pub stamp_used : ℕ → TokenRow → TokenRow
stamp_used now r = record r { used_at = or_else r.used_at (some now) }

-- `Date.now() - used_at > graceMs`; a stamp that lies ahead of this clock is never past it.
abbrev pub past_grace : ℕ → ℕ → Option ℕ → Bool
past_grace grace now none = false
past_grace grace now (some used) = ltb grace (now - used)

module _ (hash : ℕ → ℕ) (cfg : Config) where
  unfoldable pub find_refresh_token : ℕ → Db → Option RefreshTokenRecord
  unfolding auth_lookup_refresh_token
  find_refresh_token raw db = auth_lookup_refresh_token (hash raw) db

  unfoldable pub issue_refresh_token :
      (uid cid : Option ℕ) → Meta → (family : ℕ) → Draw → (now : ℕ) → Db → Result TokenError Db
  issue_refresh_token uid cid meta family draw now db =
      if xor (is_none uid) (is_none cid)
      then elim (insert_token
          (new_row draw.row_id uid cid family (hash draw.raw) (now + refresh_ttl_ms cfg) meta)
          db.tokens) [
            | none ↦ err constraint_violated
            | some rows ↦ ok (record db { tokens = rows })
          ]
      else err needs_one_principal

  -- The row that replaces the presented token: its principal and its family are inherited.
  abbrev pub successor : RefreshTokenRecord → Meta → Moments → Draw → TokenRow
  successor presented meta m draw =
      new_row draw.row_id presented.user_id presented.contact_id presented.family_id (hash draw.raw)
        (m.minted + refresh_ttl_ms cfg) meta

  -- The body of the transaction once the row is locked.
  unfoldable pub rotate_locked :
      RefreshTokenRecord
      → Meta
      → Moments
      → Draw
      → List TokenRow
      → Option TokenRow
      → Result TokenError (RotateOutcome × List TokenRow)
  rotate_locked presented meta m draw rows none = ok (revoked, rows)
  rotate_locked presented meta m draw rows (some locked) =
      if is_some locked.revoked_at
      then ok (revoked, rows)
      else if past_grace (grace_ms cfg) m.locked locked.used_at
      then ok (reused, rows)
      else elim (insert_token (successor presented meta m draw)
          (update_where (λ r. r.id == presented.id) (stamp_used m.committed) rows)) [
            | none ↦ err constraint_violated
            | some inserted ↦ ok (if is_some locked.used_at then graced else rotated, inserted)
          ]

  -- Lock, decide and mint in one transaction; the record may be older than the table.
  unfoldable pub rotate_tx :
      RefreshTokenRecord
      → Meta
      → Moments
      → Draw
      → List TokenRow
      → Result TokenError (RotateOutcome × List TokenRow)
  rotate_tx presented meta m draw rows =
      rotate_locked presented meta m draw rows (find (λ r. r.id == presented.id) rows)

  -- What follows the transaction.
  unfoldable pub rotate_settled :
      RefreshTokenRecord
      → Moments
      → Draw
      → Db
      → Result TokenError (RotateOutcome × List TokenRow)
      → Result TokenError (RefreshTokenRecord × ℕ) × Db
  rotate_settled presented m draw db (err e) = (err e, db)
  rotate_settled presented m draw db (ok (revoked, rows)) =
      (err token_revoked, record db { tokens = rows })
  rotate_settled presented m draw db (ok (reused, rows)) = (
    err (reuse_detected presented.family_id),
    (revoke_family presented.family_id m.revoking (record db { tokens = m.others rows })).0,
  )
  rotate_settled presented m draw db (ok (graced, rows)) =
      (ok (presented, draw.raw), record db { tokens = rows })
  rotate_settled presented m draw db (ok (rotated, rows)) =
      (ok (presented, draw.raw), record db { tokens = rows })

  -- `rotate` once its token is found.
  unfoldable pub rotate_found :
      Option RefreshTokenRecord
      → Meta
      → Moments
      → Draw
      → Db
      → Result TokenError (RefreshTokenRecord × ℕ) × Db
  rotate_found none meta m draw db = (err unknown_token, db)
  rotate_found (some presented) meta m draw db =
      if is_some presented.revoked_at
      then (err token_revoked, db)
      else if leb presented.expires_at m.checked
      then (err token_expired, db)
      else rotate_settled presented m draw db (rotate_tx presented meta m draw db.tokens)

  unfoldable pub rotate :
      (raw : ℕ) → Meta → Moments → Draw → Db → Result TokenError (RefreshTokenRecord × ℕ) × Db
  rotate raw meta m draw db = rotate_found (find_refresh_token raw db) meta m draw db

  unfoldable pub revoke_by_token : (raw now : ℕ) → Db → Db
  revoke_by_token raw now db = elim (find_refresh_token raw db) [
    | none ↦ db
    | some presented ↦ (revoke_family presented.family_id now db).0
  ]
