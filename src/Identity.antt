-- ===== src/Identity.antt =====
-- The tables behind sign-in (apps/api/src/database/schema/enums.ts and migration 0003), and the SQL
-- functions of migration 0011 through which the API reads and revokes refresh tokens.
--
-- A uuid and a digest are numbers; a time is a number of milliseconds.

use real_estate_webapp.Prelude.{
  ℕ, String, Bool, not, ◌&&◌, ◌||◌, Option, none, some, List, ◌∷◌, ◌==◌, if◌then◌else◌, is_some,
  is_none, find, any, update_where, count_where,
}

pub data UserRole : Type 0 where
  owner admin agent staff : UserRole

pub data UserStatus : Type 0 where
  invited active disabled : UserStatus

pub data OrgStatus : Type 0 where
  pending active suspended : OrgStatus

-- A row of `refresh_token`.
pub record TokenRow : Type 0 where
  pub id : ℕ
  pub user_id : Option ℕ
  pub contact_id : Option ℕ
  pub family_id : ℕ
  pub token_hash : ℕ
  pub expires_at : ℕ
  pub used_at : Option ℕ
  pub revoked_at : Option ℕ
  pub user_agent : Option String
  pub ip : Option String

pub record OrgRow : Type 0 where
  pub id : ℕ
  pub status : OrgStatus

pub record UserRow : Type 0 where
  pub id : ℕ
  pub organization_id : ℕ
  pub email : String
  pub password_hash : String
  pub full_name : String
  pub role : UserRole
  pub status : UserStatus
  pub last_login_at : Option ℕ

pub record Db : Type 0 where
  pub tokens : List TokenRow
  pub users : List UserRow
  pub orgs : List OrgRow

pub data PrincipalKind : Type 0 where
  staff contact : PrincipalKind

pub record RefreshTokenRecord : Type 0 where
  pub id : ℕ
  pub principal_kind : PrincipalKind
  pub user_id : Option ℕ
  pub contact_id : Option ℕ
  pub family_id : ℕ
  pub organization_id : Option ℕ
  pub expires_at : ℕ
  pub used_at : Option ℕ
  pub revoked_at : Option ℕ
  pub user_status : Option UserStatus
  pub org_status : Option OrgStatus

-- The request's metadata, kept for audit.
pub record Meta : Type 0 where
  pub user_agent : Option String
  pub ip : Option String

-- The CHECK `refresh_token_one_principal`, and the two uniqueness constraints of the table.
abbrev pub one_principal : Option ℕ → Option ℕ → Bool
one_principal uid cid = (is_some uid && is_none cid) || (is_none uid && is_some cid)

unfoldable pub conflicts : TokenRow → TokenRow → Bool
conflicts r s = r.id == s.id || r.token_hash == s.token_hash

-- `none` is a violated constraint, which aborts the transaction.
unfoldable pub insert_token : TokenRow → List TokenRow → Option (List TokenRow)
unfolding conflicts
insert_token row rows =
    if one_principal row.user_id row.contact_id && not (any (conflicts row) rows)
    then some (row ∷ rows)
    else none

abbrev pub new_row : (id : ℕ) (uid cid : Option ℕ) (family hashed expires : ℕ) → Meta → TokenRow
new_row id uid cid family hashed expires meta = record {
  id = id;
  user_id = uid;
  contact_id = cid;
  family_id = family;
  token_hash = hashed;
  expires_at = expires;
  used_at = none;
  revoked_at = none;
  user_agent = meta.user_agent;
  ip = meta.ip;
}

-- `auth_revoke_token_family` of migration 0011: rows already revoked keep their first stamp.
abbrev pub is_live_in : ℕ → TokenRow → Bool
is_live_in family r = r.family_id == family && is_none r.revoked_at

abbrev pub revoke_row : ℕ → TokenRow → TokenRow
revoke_row now r = record r { revoked_at = some now }

unfoldable pub auth_revoke_token_family : ℕ → ℕ → List TokenRow → List TokenRow × ℕ
auth_revoke_token_family family now rows =
    (update_where (is_live_in family) (revoke_row now) rows, count_where (is_live_in family) rows)

unfoldable pub revoke_family : ℕ → ℕ → Db → Db × ℕ
unfolding auth_revoke_token_family
revoke_family family now db =
    let (rows, revoked) = auth_revoke_token_family family now db.tokens in
    (record db { tokens = rows }, revoked)

-- `auth_lookup_refresh_token` of migration 0011, with its two left joins.
abbrev pub user_of : Db → Option ℕ → Option UserRow
user_of db none = none
user_of db (some uid) = find (λ u. u.id == uid) db.users

abbrev pub org_of : Db → Option UserRow → Option OrgRow
org_of db none = none
org_of db (some u) = find (λ o. o.id == u.organization_id) db.orgs

abbrev pub org_id_of : Option UserRow → Option ℕ
org_id_of none = none
org_id_of (some u) = some u.organization_id

abbrev pub user_status_of : Option UserRow → Option UserStatus
user_status_of none = none
user_status_of (some u) = some u.status

abbrev pub org_status_of : Option OrgRow → Option OrgStatus
org_status_of none = none
org_status_of (some o) = some o.status

abbrev pub record_of : Db → TokenRow → RefreshTokenRecord
record_of db r = record {
  id = r.id;
  principal_kind = if is_some r.user_id then PrincipalKind.staff else PrincipalKind.contact;
  user_id = r.user_id;
  contact_id = r.contact_id;
  family_id = r.family_id;
  organization_id = org_id_of (user_of db r.user_id);
  expires_at = r.expires_at;
  used_at = r.used_at;
  revoked_at = r.revoked_at;
  user_status = user_status_of (user_of db r.user_id);
  org_status = org_status_of (org_of db (user_of db r.user_id));
}

abbrev pub map_row {ℓ} : {A : Type ℓ} → (TokenRow → A) → Option TokenRow → Option A
map_row f none = none
map_row f (some r) = some (f r)

unfoldable pub auth_lookup_refresh_token : ℕ → Db → Option RefreshTokenRecord
auth_lookup_refresh_token hashed db =
    map_row (record_of db) (find (λ r. r.token_hash == hashed) db.tokens)
