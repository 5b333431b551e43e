-- ===== src/Auth/Staff.antt =====
-- apps/api/src/identity/services/staff-auth.service.ts, with `auth_lookup_staff` of migration 0011.
--
-- Argon2 is the interface `Passwords`; `same_email` is the comparison of the column type citext.
pub mod Login
pub mod Refresh
use real_estate_webapp.Prelude.{
  ℕ, String, Bool, true, false, not, ◌&&◌, ◌||◌, Option, none, some, List, ◌==◌, if◌then◌else◌,
  is_some, find, update_where, Result, ok, err, Text,
}
use real_estate_webapp.Http.{HttpError, unauthorized, forbidden, internal}
use real_estate_webapp.Identity.{
  UserRole, UserStatus, OrgStatus, UserRow, OrgRow, Db, PrincipalKind, RefreshTokenRecord, Meta,
  revoke_family,
}
use real_estate_webapp.Session.{
  Config, Moments, Draw, TokenError, rotate, revoke_by_token, issue_refresh_token,
}
use real_estate_webapp.Auth.{AccessTokenClaims, RoleClaim, role, Jwt}

pub record Passwords : Type 0 where
  pub verify : String → String → Bool
  pub hash : String → String
  pub needs_rehash : String → Bool

pub record AuthUser : Type 0 where
  pub id : ℕ
  pub email : String
  pub full_name : String
  pub role : UserRole
  pub organization_id : ℕ

pub record AuthResult : Type 0 where
  pub access_token : Text
  pub refresh_token : ℕ
  pub user : AuthUser

abbrev pub user_is_active : UserStatus → Bool
user_is_active UserStatus.active = true
user_is_active UserStatus.invited = false
user_is_active UserStatus.disabled = false

abbrev pub org_is_active : OrgStatus → Bool
org_is_active OrgStatus.active = true
org_is_active OrgStatus.pending = false
org_is_active OrgStatus.suspended = false

abbrev pub status_is_active : Option UserStatus → Option OrgStatus → Bool
status_is_active (some u) (some o) = user_is_active u && org_is_active o
status_is_active (some u) none = false
status_is_active none o = false

abbrev pub invalid_login : HttpError
invalid_login = unauthorized "Invalid email or password"

abbrev pub session_expired : HttpError
session_expired = unauthorized "Session expired, please sign in again"

abbrev pub not_active : HttpError
not_active = forbidden "Account is not active"

module _ (same_email : String → String → Bool) where
  -- The inner join of `auth_lookup_staff`.
  unfoldable pub joined : Db → Option UserRow → Option (UserRow × OrgStatus)
  joined db none = none
  joined db (some u) = elim (find (λ o. o.id == u.organization_id) db.orgs) [
    | none ↦ none
    | some o ↦ some (u, o.status)
  ]

  unfoldable pub auth_lookup_staff : String → Db → Option (UserRow × OrgStatus)
  unfolding joined
  auth_lookup_staff email db = joined db (find (λ u. same_email u.email email) db.users)

-- An update of `app_user` under the tenant context of the user's organisation.
unfoldable pub update_user : UserRow → (UserRow → UserRow) → Db → Db
update_user u f db = record db {
  users = update_where (λ x. x.id == u.id && x.organization_id == u.organization_id) f db.users;
}

module _ (hash : ℕ → ℕ) (cfg : Config) (jwt : Jwt) (passwords : Passwords)
    (same_email : String → String → Bool) where
  abbrev pub staff_claims : ℕ → ℕ → UserRole → AccessTokenClaims
  staff_claims uid org r = record {
    sub = uid;
    org = some org;
    role = role r;
    kind = PrincipalKind.staff;
  }

  unfoldable pub rehashed : String → UserRow → Db → Db
  unfolding update_user
  rehashed password u db =
      if passwords.needs_rehash u.password_hash
      then update_user u (λ x. record x { password_hash = passwords.hash password }) db
      else db

  -- What `login` does once the user is known to be who they say and active.
  unfoldable pub login_as :
      UserRow
      → String
      → Meta
      → (family : ℕ) → Draw
      → (now : ℕ) → Db
      → Result HttpError AuthResult × Db
  unfolding rehashed update_user issue_refresh_token
  login_as u password meta family draw now db =
      let db' =
        update_user u (λ x. record x { last_login_at = some now }) (rehashed password u db) in
      elim (issue_refresh_token hash cfg (some u.id) none meta family draw now db') [
        | err e ↦ (err internal, db')
        | ok after ↦ (
          ok (record {
            access_token = jwt.sign now (staff_claims u.id u.organization_id u.role);
            refresh_token = draw.raw;
            user = record {
              id = u.id;
              email = u.email;
              full_name = u.full_name;
              role = u.role;
              organization_id = u.organization_id;
            };
          }),
          after,
        )
      ]

  unfoldable pub login_found :
      Option (UserRow × OrgStatus)
      → String
      → Meta
      → (family : ℕ) → Draw
      → (now : ℕ) → Db
      → Result HttpError AuthResult × Db
  login_found none password meta family draw now db = (err invalid_login, db)
  login_found (some (u, org_status)) password meta family draw now db =
      if not (passwords.verify u.password_hash password)
      then (err invalid_login, db)
      else if not (user_is_active u.status) || not (org_is_active org_status)
      then (err invalid_login, db)
      else login_as u password meta family draw now db

  unfoldable pub login :
      (email password : String)
      → Meta
      → (family : ℕ) → Draw
      → (now : ℕ) → Db
      → Result HttpError AuthResult × Db
  login email password meta family draw now db =
      login_found (auth_lookup_staff same_email email db) password meta family draw now db

module _ (hash : ℕ → ℕ) (cfg : Config) (jwt : Jwt) where
  -- The role as it is now, read under the tenant context of the organisation.
  unfoldable pub current_role : (uid org : ℕ) → Db → Option UserRow
  current_role uid org db = find (λ u. u.id == uid && u.organization_id == org) db.users

  unfoldable pub refresh_as :
      Option UserRow → (uid org raw now : ℕ) → Db → Result HttpError (Text × ℕ) × Db
  refresh_as none uid org raw now db = (err session_expired, db)
  refresh_as (some u) uid org raw now db = (
    ok (
      jwt.sign now
          (record { sub = uid; org = some org; role = role u.role; kind = PrincipalKind.staff }),
      raw,
    ),
    db,
  )

  -- The checks on the record of an exchanged token: a staff principal, and an active one.
  unfoldable pub refresh_staff :
      PrincipalKind
      → (uid org : Option ℕ) → RefreshTokenRecord
      → (raw : ℕ) → Moments
      → (now : ℕ) → Db
      → Result HttpError (Text × ℕ) × Db
  refresh_staff PrincipalKind.staff (some uid) (some org) presented raw m now db =
      if status_is_active presented.user_status presented.org_status
      then refresh_as (current_role uid org db) uid org raw now db
      else (err not_active, (revoke_family presented.family_id m.revoking db).0)
  refresh_staff _ _ _ presented raw m now db =
      (err session_expired, (revoke_family presented.family_id m.revoking db).0)

  unfoldable pub refresh_settled :
      Moments
      → (now : ℕ) → Result TokenError (RefreshTokenRecord × ℕ) × Db
      → Result HttpError (Text × ℕ) × Db
  refresh_settled m now (err e, db) = (err session_expired, db)
  refresh_settled m now (ok (presented, raw), db) =
      refresh_staff presented.principal_kind presented.user_id presented.organization_id presented
        raw m now db

  unfoldable pub refresh :
      (raw : ℕ) → Meta → Moments → Draw → (now : ℕ) → Db → Result HttpError (Text × ℕ) × Db
  refresh raw meta m draw now db = refresh_settled m now (rotate hash cfg raw meta m draw db)

  unfoldable pub logout : (raw now : ℕ) → Db → Db
  logout raw now db = revoke_by_token hash cfg raw now db
