-- ===== src/Auth/Staff/Refresh.antt =====
-- What the staff refresh endpoint does with a token that it could exchange.
use real_estate_webapp.Prelude.{
  ℕ, ◌≡◌, refl, true, false, Option, none, some, arith, Result, ok, err, Text, Bool-cases, inl, inr,
}
use real_estate_webapp.Identity.{
  UserRow, Db, PrincipalKind, RefreshTokenRecord, Meta, revoke_family,
}
use real_estate_webapp.Session.{Config, Moments, Draw, TokenError, rotate}
use real_estate_webapp.Session.Families.{IsDead}
use real_estate_webapp.Session.Snapshots.{distinct}
use real_estate_webapp.Session.Success.{IsRenewable, renewal_result, renewed-known}
use real_estate_webapp.Session.Theft.{revoked-IsDead}
use real_estate_webapp.Auth.{role, Jwt}
use real_estate_webapp.Auth.Staff.{
  refresh, refresh_settled, refresh_staff, refresh_as, current_role, status_is_active,
  session_expired, not_active,
}

module _ (hash : ℕ → ℕ) (cfg : Config) (jwt : Jwt) where
  -- Staff claims are signed only for a staff principal with an active user and an active
  -- organisation, whose user row is of that organisation.
  pub record IsStaffGrant (presented : RefreshTokenRecord) (db : Db) (now : ℕ) (access : Text)
      : Type 0 where
    pub uid : ℕ
    pub org : ℕ
    pub user : UserRow
    pub staff_token : presented.principal_kind ≡ PrincipalKind.staff
    pub user_token : presented.user_id ≡ some uid
    pub of_org : presented.organization_id ≡ some org
    pub active : status_is_active presented.user_status presented.org_status ≡ true
    pub listed : current_role hash cfg jwt uid org db ≡ some user
    pub signed :
        access
        ≡ jwt.sign now (record {
          sub = uid;
          org = some org;
          role = role user.role;
          kind = PrincipalKind.staff;
        })

  refresh_as-ok :
      (o : Option UserRow) (uid org raw now : ℕ) (db : Db) (out : Text × ℕ)
      → (refresh_as hash cfg jwt o uid org raw now db).0 ≡ ok out
      → (u : UserRow) × (o ≡ some u)
        × (out.0
            ≡ jwt.sign now (record {
              sub = uid;
              org = some org;
              role = role u.role;
              kind = PrincipalKind.staff;
            }))
  unfolding refresh_as
  refresh_as-ok none uid org raw now db out h = absurd (ground arith)
  refresh_as-ok (some u) uid org raw now db out h = (u, refl, ground arith)

  staff-ok :
      (k : PrincipalKind) (u o : Option ℕ) (presented : RefreshTokenRecord) (raw : ℕ) (m : Moments)
      (now : ℕ) (db : Db) (out : Text × ℕ)
      → presented.principal_kind ≡ k
      → presented.user_id ≡ u
      → presented.organization_id ≡ o
      → (refresh_staff hash cfg jwt k u o presented raw m now db).0 ≡ ok out
      → IsStaffGrant presented db now out.0
  unfolding refresh_staff
  staff-ok PrincipalKind.staff (some uid) (some org) presented raw m now db out ek eu eo h =
      elim (Bool-cases (status_is_active presented.user_status presented.org_status)) [
        | inr idle ↦ absurd (ground arith)
        | inl active ↦
            let (user, listed, signed) =
              refresh_as-ok (current_role hash cfg jwt uid org db) uid org raw now db out
                (rw active at h) in
            record {
              uid = uid;
              org = org;
              user = user;
              staff_token = ek;
              user_token = eu;
              of_org = eo;
              active = active;
              listed = listed;
              signed = signed;
            }
      ]
  staff-ok PrincipalKind.staff (some uid) none presented raw m now db out ek eu eo h =
      absurd (ground arith)
  staff-ok PrincipalKind.staff none o presented raw m now db out ek eu eo h = absurd (ground arith)
  staff-ok PrincipalKind.contact u o presented raw m now db out ek eu eo h = absurd (ground arith)

  settled-ok :
      (r : Result TokenError (RefreshTokenRecord × ℕ) × Db) (m : Moments) (now : ℕ) (out : Text × ℕ)
      → (refresh_settled hash cfg jwt m now r).0 ≡ ok out
      → (presented : RefreshTokenRecord) × (raw : ℕ) × (r.0 ≡ ok (presented, raw))
        × IsStaffGrant presented r.1 now out.0
  unfolding refresh_settled
  settled-ok (err e, db) m now out h = absurd (ground arith)
  settled-ok (ok (presented, raw), db) m now out h = (
    presented,
    raw,
    refl,
    staff-ok presented.principal_kind presented.user_id presented.organization_id presented raw m
        now db out refl refl refl h,
  )

  -- The staff endpoint signs an access token only after an exchange of a staff token whose user and
  -- organisation are active, and the claims are that user's id, that organisation and the role that
  -- the user's row holds at that moment.
  pub refresh_grant :
      (raw : ℕ) (meta : Meta) (m : Moments) (draw : Draw) (now : ℕ) (db : Db) (out : Text × ℕ)
      → (refresh hash cfg jwt raw meta m draw now db).0 ≡ ok out
      → (presented : RefreshTokenRecord) × (fresh : ℕ) × ((rotate hash cfg raw meta m draw db).0
          ≡ ok (presented, fresh))
        × IsStaffGrant presented (rotate hash cfg raw meta m draw db).1 now out.0
  unfolding refresh
  refresh_grant raw meta m draw now db out h =
      settled-ok (rotate hash cfg raw meta m draw db) m now out h

  module _ (raw : ℕ) (meta : Meta) (m : Moments) (draw : Draw) (now : ℕ) (db : Db)
      (presented : RefreshTokenRecord) where
    contact_refused :
        (k : PrincipalKind) (u o : Option ℕ) (db' : Db)
        → k ≡ PrincipalKind.contact
        → refresh_staff hash cfg jwt k u o presented draw.raw m now db'
          ≡ (err session_expired, (revoke_family presented.family_id m.revoking db').0)
    unfolding refresh_staff
    contact_refused PrincipalKind.staff u o db' e = absurd (ground arith)
    contact_refused PrincipalKind.contact u o db' e = refl

    -- A buyer's token that could be exchanged is refused by the staff endpoint, and its whole family
    -- is revoked.
    pub contact_token_refused :
        distinct db.tokens ≡ true
        → IsRenewable hash cfg raw meta m draw db presented
        → presented.principal_kind ≡ PrincipalKind.contact
        → let (answer, after) = refresh hash cfg jwt raw meta m draw now db in
          (answer ≡ err session_expired) × IsDead presented.family_id after.tokens
    unfolding refresh refresh_settled
    contact_token_refused d l k =
        rw
          (
            renewal_result hash cfg raw meta m draw db presented d l,
            contact_refused presented.principal_kind presented.user_id presented.organization_id _
                k,
          )
          (
            refl,
            revoked-IsDead hash cfg presented.family_id m.revoking _
                (renewed-known hash cfg presented meta m draw db.tokens),
          )

    inactive_refused :
        (k : PrincipalKind) (u o : Option ℕ) (uid org : ℕ) (db' : Db)
        → k ≡ PrincipalKind.staff
        → u ≡ some uid
        → o ≡ some org
        → status_is_active presented.user_status presented.org_status ≡ false
        → refresh_staff hash cfg jwt k u o presented draw.raw m now db'
          ≡ (err not_active, (revoke_family presented.family_id m.revoking db').0)
    unfolding refresh_staff
    inactive_refused PrincipalKind.contact u o uid org db' ek eu eo e = absurd (ground arith)
    inactive_refused PrincipalKind.staff none o uid org db' ek eu eo e = absurd (ground arith)
    inactive_refused PrincipalKind.staff (some u) none uid org db' ek eu eo e =
        absurd (ground arith)
    inactive_refused PrincipalKind.staff (some u) (some o) uid org db' ek eu eo e = rw e refl

    -- A staff token of a user or an organisation that is no longer active is refused, and its whole
    -- family is revoked.
    pub inactive_token_refused :
        (u o : ℕ)
        → distinct db.tokens ≡ true
        → IsRenewable hash cfg raw meta m draw db presented
        → presented.principal_kind ≡ PrincipalKind.staff
        → presented.user_id ≡ some u
        → presented.organization_id ≡ some o
        → status_is_active presented.user_status presented.org_status ≡ false
        → let (answer, after) = refresh hash cfg jwt raw meta m draw now db in
          (answer ≡ err not_active) × IsDead presented.family_id after.tokens
    unfolding refresh refresh_settled
    inactive_token_refused u o d l k eu eo idle =
        rw
          (
            renewal_result hash cfg raw meta m draw db presented d l,
            inactive_refused presented.principal_kind presented.user_id presented.organization_id u
                o _ k eu eo idle,
          )
          (
            refl,
            revoked-IsDead hash cfg presented.family_id m.revoking _
                (renewed-known hash cfg presented meta m draw db.tokens),
          )
