-- ===== src/Auth/Contact/Tests.antt =====
-- Buyers who sign in by phone, and the theorems about them.
use mathlib.Core.Bool.{xor}
use real_estate_webapp.Prelude.{
  ℕ, ◌+◌, ◌*◌, ◌≡◌, refl, true, false, none, some, [], ◌∷◌, ok, any, find, update_where,
  count_where, Text, codes, text_eq,
}
use real_estate_webapp.Identity.{conflicts, insert_token}
use real_estate_webapp.Session.{issue_refresh_token}
use real_estate_webapp.Contacts.{ContactRow, clashes, insert_contact, update_contact}
use real_estate_webapp.Otp.{
  OtpConfig, accepted, latest, hash_code, new_challenge, generate_code, purpose_eq,
  verify_challenge,
}
use real_estate_webapp.Otp as Otp
use real_estate_webapp.Auth.Tests.{plain_jwt, digest, config, no_meta, draw}
use real_estate_webapp.Auth.Contact.{
  Tables, ContactAuthResult, Draws, lookup_identity, contact_claims, insert_identity, issue_tokens,
  signed_in, new_phone, resolve_phone, after_code, verify_login_otp,
}
use real_estate_webapp.Auth.Contact.Password.{upsert_secret, record_email, link_email_password}
use real_estate_webapp.Auth.Contact.SignIn.{phone_sign_in-accepted}

buyers : Unit {0}
unfolding xor Otp.verify verify_challenge latest hash_code new_challenge generate_code purpose_eq
    any find update_where count_where text_eq issue_refresh_token insert_token conflicts
    insert_contact clashes insert_identity lookup_identity new_phone resolve_phone signed_in
    issue_tokens after_code verify_login_otp upsert_secret record_email link_email_password
    update_contact plain_jwt
buyers = tt

abbrev sha : Text → ℕ
sha [] = 1
sha (c ∷ s) = c + 1000 * sha s

abbrev otp : OtpConfig
otp = record {
  ttl_seconds = 300;
  max_attempts = 3;
  resend_cooldown_seconds = 60;
  is_production = true;
}

abbrev phone : Text
phone = codes "+91"

abbrev code : Text
code = codes "123456"

abbrev tables : Tables
tables = record {
  contacts = [];
  identities = [];
  challenges = new_challenge sha otp phone Otp.login 1 123456 5000 ∷ [];
  sessions = record { tokens = []; users = []; orgs = [] };
}

abbrev draws : Draws
draws = record { contact_id = 40; identity_id = 50; family = 60; token = draw }

abbrev welcome : ContactAuthResult
welcome = record {
  access_token = plain_jwt.sign 9000 (contact_claims 40);
  refresh_token = 13;
  contact = record {
    id = 40;
    full_name = some (codes "Amit");
    phone = some phone;
    email = none;
    whatsapp_opt_in = true;
  };
}

let_in :
    (verify_login_otp digest config plain_jwt sha otp text_eq phone code
      (some (codes "Amit"))
      (some true)
      no_meta
      draws
      9000
      tables).0
    ≡ ok welcome
unfolding buyers
let_in = refl

phone_sign_in-accepted_example :
    ((Otp.verify sha otp phone Otp.login code 9000 tables.challenges).0 ≡ accepted)
    × (welcome.access_token ≡ plain_jwt.sign 9000 (contact_claims 40))
phone_sign_in-accepted_example =
    phone_sign_in-accepted digest config plain_jwt sha otp text_eq phone code (some (codes "Amit"))
      (some true) no_meta draws 9000 tables welcome let_in

-- The contact that a form left behind.
abbrev enquirer : ContactRow
enquirer = record {
  id = 1;
  full_name = some (codes "Amit");
  primary_phone = some phone;
  primary_email = none;
  phone_verified_at = none;
  whatsapp_opt_in = false;
}

abbrev linked : Tables
linked = record tables { contacts = enquirer ∷ [] }
