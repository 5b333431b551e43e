-- ===== src/Auth/Contact/Refresh.antt =====
-- `refresh` and `logout` of contact-auth.service.ts.
use real_estate_webapp.Prelude.{ℕ, ◌≡◌, refl, true, Option, some, arith, Result, ok, err, Text}
use real_estate_webapp.Http.{HttpError}
use real_estate_webapp.Identity.{Db, PrincipalKind, RefreshTokenRecord, Meta, revoke_family}
use real_estate_webapp.Session.{Config, Moments, Draw, TokenError, rotate, revoke_by_token}
use real_estate_webapp.Session.Families.{IsDead}
use real_estate_webapp.Session.Snapshots.{distinct}
use real_estate_webapp.Session.Success.{IsRenewable, renewal_result, renewed-known}
use real_estate_webapp.Session.Theft.{revoked-IsDead}
use real_estate_webapp.Auth.{Jwt}
use real_estate_webapp.Auth.Contact.{contact_claims, session_expired}

module _ (hash : ℕ → ℕ) (cfg : Config) (jwt : Jwt) where
  -- The checks on the record of an exchanged token: a buyer's.
  unfoldable pub refresh_contact :
      PrincipalKind
      → (cid : Option ℕ) → RefreshTokenRecord
      → (raw : ℕ) → Moments
      → (now : ℕ) → Db
      → Result HttpError (Text × ℕ) × Db
  refresh_contact PrincipalKind.contact (some cid) presented raw m now db =
      (ok (jwt.sign now (contact_claims cid), raw), db)
  refresh_contact _ _ presented raw m now db =
      (err session_expired, (revoke_family presented.family_id m.revoking db).0)

  unfoldable pub refresh_settled :
      Moments
      → (now : ℕ) → Result TokenError (RefreshTokenRecord × ℕ) × Db
      → Result HttpError (Text × ℕ) × Db
  refresh_settled m now (err e, db) = (err session_expired, db)
  refresh_settled m now (ok (presented, raw), db) =
      refresh_contact presented.principal_kind presented.contact_id presented raw m now db

  unfoldable pub refresh :
      (raw : ℕ) → Meta → Moments → Draw → (now : ℕ) → Db → Result HttpError (Text × ℕ) × Db
  refresh raw meta m draw now db = refresh_settled m now (rotate hash cfg raw meta m draw db)

  unfoldable pub logout : (raw now : ℕ) → Db → Db
  logout raw now db = revoke_by_token hash cfg raw now db

  module _ (raw : ℕ) (meta : Meta) (m : Moments) (draw : Draw) (now : ℕ) (db : Db)
      (presented : RefreshTokenRecord) where
    staff_refused :
        (k : PrincipalKind) (c : Option ℕ) (db' : Db)
        → k ≡ PrincipalKind.staff
        → refresh_contact k c presented draw.raw m now db'
          ≡ (err session_expired, (revoke_family presented.family_id m.revoking db').0)
    unfolding refresh_contact
    staff_refused PrincipalKind.contact c db' e = absurd (ground arith)
    staff_refused PrincipalKind.staff c db' e = refl

    -- A staff token that could be exchanged is refused by the buyers' endpoint, and its whole family
    -- is revoked.
    pub staff_token_refused :
        distinct db.tokens ≡ true
        → IsRenewable hash cfg raw meta m draw db presented
        → presented.principal_kind ≡ PrincipalKind.staff
        → let (answer, after) = refresh raw meta m draw now db in
          (answer ≡ err session_expired) × IsDead presented.family_id after.tokens
    unfolding refresh refresh_settled
    staff_token_refused d l k =
        rw
          (
            renewal_result hash cfg raw meta m draw db presented d l,
            staff_refused presented.principal_kind presented.contact_id _ k,
          )
          (
            refl,
            revoked-IsDead hash cfg presented.family_id m.revoking _
                (renewed-known hash cfg presented meta m draw db.tokens),
          )
