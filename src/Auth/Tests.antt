-- ===== src/Auth/Tests.antt =====
-- Sign-in over a small set of tables, and the theorems about it there.
use real_estate_webapp.Prelude.{
  ℕ, ◌+◌, ◌<◌, ◌≡◌, ◌⊎◌, refl, zero, suc, String, Bool, false, Option, none, some, [], ◌∷◌,
  if◌then◌else◌, ltb, Result, ok, err, arith, any, find, update_where, count_where, Text, trim,
  trim_start, is_space, text_eq, codes,
}
use mathlib.Core.Bool.{xor}
use real_estate_webapp.Http.{HttpError, internal}
use real_estate_webapp.Identity.{
  UserRole, UserStatus, OrgStatus, TokenRow, UserRow, Db, Meta, PrincipalKind, RefreshTokenRecord,
  record_of, conflicts, auth_lookup_refresh_token, insert_token, revoke_family,
  auth_revoke_token_family,
}
use real_estate_webapp.Session.{
  Config, Moments, Draw, find_refresh_token, rotate, rotate_found, rotate_settled, rotate_tx,
  rotate_locked, issue_refresh_token,
}
use real_estate_webapp.Session.Snapshots.{distinct}
use real_estate_webapp.Session.Success.{IsRenewable}
use real_estate_webapp.Auth.{RoleClaim, role, contact_role, AccessTokenClaims, Jwt}
use real_estate_webapp.Auth.Staff.{
  Passwords, AuthResult, staff_claims, joined, auth_lookup_staff, update_user, rehashed, login,
  login_found, login_as, invalid_login, refresh, refresh_settled, refresh_staff, refresh_as,
  current_role,
}
use real_estate_webapp.Auth.Staff.Login.{MaySignIn, login_failure_uniform}
use real_estate_webapp.Auth.Staff.Refresh.{IsStaffGrant, refresh_grant}

unfoldable pub service : Unit {0}
unfolding xor rotate rotate_found rotate_settled rotate_tx rotate_locked revoke_family
    find_refresh_token issue_refresh_token distinct conflicts any find update_where count_where
    insert_token auth_revoke_token_family auth_lookup_refresh_token joined auth_lookup_staff
    update_user rehashed login login_found login_as refresh refresh_settled refresh_staff refresh_as
    current_role trim trim_start is_space text_eq
service = tt

abbrev pub role_code : RoleClaim → ℕ
role_code (role UserRole.owner) = 0
role_code (role UserRole.admin) = 1
role_code (role UserRole.agent) = 2
role_code (role UserRole.staff) = 3
role_code contact_role = 4

abbrev pub role_at : ℕ → RoleClaim
role_at zero = role UserRole.owner
role_at (suc zero) = role UserRole.admin
role_at (suc (suc zero)) = role UserRole.agent
role_at (suc (suc (suc zero))) = role UserRole.staff
role_at _ = contact_role

abbrev pub kind_code : PrincipalKind → ℕ
kind_code PrincipalKind.staff = 0
kind_code PrincipalKind.contact = 1

abbrev pub kind_at : ℕ → PrincipalKind
kind_at zero = PrincipalKind.staff
kind_at _ = PrincipalKind.contact

abbrev pub org_code : Option ℕ → ℕ
org_code none = 0
org_code (some n) = suc n

abbrev pub org_at : ℕ → Option ℕ
org_at zero = none
org_at (suc n) = some n

-- A signature that lists the claims between two letters.
abbrev pub plain_sign : ℕ → AccessTokenClaims → Text
plain_sign issued c =
    65 ∷ issued ∷ c.sub ∷ org_code c.org ∷ role_code c.role ∷ kind_code c.kind ∷ 65 ∷ []

abbrev pub plain_verify : ℕ → Text → Option AccessTokenClaims
plain_verify now (_ ∷ issued ∷ sub ∷ org ∷ r ∷ kind ∷ _ ∷ []) =
    if ltb now (issued + 900000)
    then some (record { sub = sub; org = org_at org; role = role_at r; kind = kind_at kind })
    else none
plain_verify now _ = none

role_round_trip : (r : RoleClaim) → role_at (role_code r) ≡ r
role_round_trip (role UserRole.owner) = refl
role_round_trip (role UserRole.admin) = refl
role_round_trip (role UserRole.agent) = refl
role_round_trip (role UserRole.staff) = refl
role_round_trip contact_role = refl

kind_round_trip : (k : PrincipalKind) → kind_at (kind_code k) ≡ k
kind_round_trip PrincipalKind.staff = refl
kind_round_trip PrincipalKind.contact = refl

org_round_trip : (o : Option ℕ) → org_at (org_code o) ≡ o
org_round_trip none = refl
org_round_trip (some n) = refl

pub plain_verify-sign :
    (issued now : ℕ) (c : AccessTokenClaims)
    → now < issued + 900000
    → plain_verify now (plain_sign issued c) ≡ some c
plain_verify-sign issued now c h =
    rw (role_round_trip c.role, kind_round_trip c.kind, org_round_trip c.org) (ground (arith, h))

unfoldable pub plain_jwt : Jwt
unfolding trim trim_start is_space
plain_jwt = record {
  ttl_ms = 900000;
  sign = plain_sign;
  verify = plain_verify;
  verify-sign = plain_verify-sign;
  trim-sign = λ issued c. refl;
}

abbrev pub digest : ℕ → ℕ
digest n = n + 7000

abbrev pub config : Config
config = record { jwt_refresh_ttl_days = 30; refresh_rotation_grace_seconds = 10 }

abbrev pub same_text : String → String → Bool
same_text a b = text_eq (codes a) (codes b)

abbrev plain : Passwords
plain = record {
  verify = λ hashed password. same_text hashed password;
  hash = λ password. password;
  needs_rehash = λ hashed. false;
}

abbrev pub no_meta : Meta
no_meta = record { user_agent = none; ip = none }

abbrev pub ann : UserRow
ann = record {
  id = 1;
  organization_id = 10;
  email = "ann@x.in";
  password_hash = "secret";
  full_name = "Ann";
  role = UserRole.agent;
  status = UserStatus.active;
  last_login_at = none;
}

abbrev pub token_of : (id raw family : ℕ) → (uid cid : Option ℕ) → TokenRow
token_of id raw family uid cid = record {
  id = id;
  user_id = uid;
  contact_id = cid;
  family_id = family;
  token_hash = digest raw;
  expires_at = 900000;
  used_at = none;
  revoked_at = none;
  user_agent = none;
  ip = none;
}

abbrev pub staff_token : TokenRow
staff_token = token_of 1 11 5 (some 1) none

abbrev buyer_token : TokenRow
buyer_token = token_of 2 12 6 none (some 7)

abbrev pub tables : Db
tables = record {
  tokens = staff_token ∷ buyer_token ∷ [];
  users = ann ∷ [];
  orgs = record { id = 10; status = OrgStatus.active } ∷ [];
}

abbrev pub closed : Db
closed = record tables { orgs = record { id = 10; status = OrgStatus.suspended } ∷ [] }

abbrev pub now : Moments
now = record {
  checked = 20000;
  minted = 20010;
  locked = 20020;
  committed = 20015;
  revoking = 20030;
  others = λ rows. rows;
}

abbrev pub draw : Draw
draw = record { row_id = 3; raw = 13 }

abbrev wrong : Result HttpError AuthResult × Db
wrong = login digest config plain_jwt plain same_text "ann@x.in" "guess" no_meta 8 draw 20000 tables

wrong_refused : wrong.0 ≡ err invalid_login
unfolding service
wrong_refused = refl

login_failure_uniform_example :
    (wrong ≡ (err invalid_login, tables))
    ⊎ ((u : UserRow) × (o : OrgStatus) × MaySignIn digest config plain_jwt plain same_text
          "ann@x.in" "guess" no_meta 8 draw 20000 tables u o
        × (invalid_login ≡ internal))
login_failure_uniform_example =
    login_failure_uniform digest config plain_jwt plain same_text "ann@x.in" "guess" no_meta 8 draw
      20000 tables invalid_login wrong_refused

abbrev signed_in : AuthResult
signed_in = record {
  access_token =
      plain_jwt.sign 20000
        (staff_claims digest config plain_jwt plain same_text 1 10 UserRole.agent);
  refresh_token = 13;
  user = record {
    id = 1;
    email = "ann@x.in";
    full_name = "Ann";
    role = UserRole.agent;
    organization_id = 10;
  };
}

abbrev granted : Text × ℕ
granted = (
  plain_jwt.sign 20040
      (record { sub = 1; org = some 10; role = role UserRole.agent; kind = PrincipalKind.staff }),
  13,
)

refresh_grant_example :
    (presented : RefreshTokenRecord) × (fresh : ℕ) × ((rotate digest config 11 no_meta now draw
        tables).0
      ≡ ok (presented, fresh))
    × IsStaffGrant digest config plain_jwt presented
        (rotate digest config 11 no_meta now draw tables).1
        20040
        granted.0
unfolding service
refresh_grant_example =
    refresh_grant digest config plain_jwt 11 no_meta now draw 20040 tables granted refl

buyer-IsRenewable :
    IsRenewable digest config 12 no_meta now draw tables (record_of tables buyer_token)
unfolding service
buyer-IsRenewable = record {
  found = refl;
  unrevoked = refl;
  unexpired = omega arith;
  timely = refl;
  principal = refl;
  fresh = refl;
}

pub staff-IsRenewable :
    IsRenewable digest config 11 no_meta now draw closed (record_of closed staff_token)
unfolding service
staff-IsRenewable = record {
  found = refl;
  unrevoked = refl;
  unexpired = omega arith;
  timely = refl;
  principal = refl;
  fresh = refl;
}
