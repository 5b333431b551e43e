-- ===== src/Session/Tests.antt =====
-- Runs of the token service on a small table, and the theorems about it at that table.
use real_estate_webapp.Prelude.{
  ℕ, ◌+◌, ◌≡◌, ◌≢◌, refl, none, some, [], ◌∷◌, ok, arith, any, find, update_where,
}
use real_estate_webapp.Identity.{
  TokenRow, Db, Meta, RefreshTokenRecord, record_of, conflicts, auth_lookup_refresh_token,
  insert_token, revoke_family, auth_revoke_token_family,
}
use real_estate_webapp.Session.{
  Config, Moments, Draw, find_refresh_token, rotate, rotate_found, rotate_settled, rotate_tx,
  rotate_locked, successor,
}
use real_estate_webapp.Session.Families.{IsDead}
use real_estate_webapp.Session.Snapshots.{distinct}
use real_estate_webapp.Session.Interleaving.{World, Reach, here, next, looked_up, IsValid}
use real_estate_webapp.Session.Theft.{Reach-IsDead}
use real_estate_webapp.Session.Spent.{IsSpent, spent_after_grace}
use real_estate_webapp.Session.Success.{IsRenewable, Follows, rotate_renews}

service : Unit {0}
unfolding rotate rotate_found rotate_settled rotate_tx rotate_locked revoke_family
    find_refresh_token distinct conflicts any find update_where insert_token
    auth_revoke_token_family auth_lookup_refresh_token
service = tt

abbrev digest : ℕ → ℕ
digest n = n + 7000

abbrev config : Config
config = record { jwt_refresh_ttl_days = 30; refresh_rotation_grace_seconds = 10 }

abbrev no_meta : Meta
no_meta = record { user_agent = none; ip = none }

abbrev used_token : TokenRow
used_token = record {
  id = 1;
  user_id = none;
  contact_id = some 7;
  family_id = 5;
  token_hash = digest 11;
  expires_at = 900000;
  used_at = some 100;
  revoked_at = none;
  user_agent = none;
  ip = none;
}

abbrev newer_token : TokenRow
newer_token = record used_token { id = 2; token_hash = digest 12; used_at = none }

abbrev tables : Db
tables = record { tokens = newer_token ∷ used_token ∷ []; users = []; orgs = [] }

abbrev late : Moments
late = record {
  checked = 20000;
  minted = 20010;
  locked = 20020;
  committed = 20015;
  revoking = 20030;
  others = λ rows. rows;
}

abbrev next_draw : Draw
next_draw = record { row_id = 3; raw = 13 }

abbrev presented : RefreshTokenRecord
presented = record_of tables used_token

abbrev newest : RefreshTokenRecord
newest = record_of tables newer_token

abbrev world : World
world = record { db = tables; in_flight = presented ∷ [] }

world-IsValid : IsValid digest config world
unfolding service
world-IsValid = record {
  unique = refl;
  snapshots = (
    record {
      row = used_token;
      found = refl;
      same_family = refl;
      same_user = refl;
      same_contact = refl;
    },
    tt,
  );
}

renewable : IsRenewable digest config 12 no_meta late next_draw tables newest
unfolding service
renewable = record {
  found = refl;
  unrevoked = refl;
  unexpired = omega arith;
  timely = refl;
  principal = refl;
  fresh = refl;
}

abbrev robbed : World
robbed = record world { db = (rotate digest config 11 no_meta late next_draw tables).1 }

abbrev revoked_newest : RefreshTokenRecord
revoked_newest = record newest { revoked_at = some 20030 }

newest_revoked : find_refresh_token digest config 12 robbed.db ≡ some revoked_newest
unfolding service
newest_revoked = refl

robbed-IsValid : IsValid digest config robbed
unfolding service
robbed-IsValid = record {
  unique = refl;
  snapshots = (
    record {
      row = record used_token { revoked_at = some 20030 };
      found = refl;
      same_family = refl;
      same_user = refl;
      same_contact = refl;
    },
    tt,
  );
}

robbed-IsDead : IsDead 5 robbed.db.tokens
unfolding service
robbed-IsDead = record { known = refl; spent = refl }

-- One more request reads its record after the revocation.
abbrev read_again : World
read_again = record robbed { in_flight = revoked_newest ∷ presented ∷ [] }

read_step : Reach digest config robbed read_again
unfolding service
read_step = next here (looked_up robbed 12 revoked_newest newest_revoked)

Reach-IsDead_example : IsDead 5 read_again.db.tokens
Reach-IsDead_example =
    Reach-IsDead digest config 5 {w = robbed} {v = read_again} robbed-IsValid read_step
      robbed-IsDead

spent_after_grace_example :
    (rotate_found digest config (some presented) no_meta late next_draw tables).0
    ≢ ok (presented, 13)
unfolding service
spent_after_grace_example =
    spent_after_grace digest config 100 world world presented no_meta late next_draw (presented, 13)
      (record { row = used_token; found = refl; stamped = refl }) here (omega arith)

rotate_renews_example :
    let (answer, after) = rotate digest config 12 no_meta late next_draw tables in
    (answer ≡ ok (newest, 13))
    × (find_refresh_token digest config 13 after
        ≡ some (record_of tables (successor digest config newest no_meta late next_draw)))
    × Follows digest config newest late (successor digest config newest no_meta late next_draw)
    × IsSpent 2 20015 after.tokens
unfolding service
rotate_renews_example =
    rotate_renews digest config 12 no_meta late next_draw tables newest refl renewable
