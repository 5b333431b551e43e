-- ===== src/Auth/Contact.antt =====
-- apps/api/src/identity/services/contact-auth.service.ts: sign-in of buyers and sellers, over the
-- tables contact and contact_identity of migration 0003.
--
-- The text of a phone number or an email is what `provider_uid` holds.
pub mod SignIn
pub mod Refresh
pub mod Password
mod Tests
use real_estate_webapp.Prelude.{
  ℕ, Bool, true, false, ◌&&◌, ◌||◌, not, Option, none, some, List, [], ◌∷◌, ◌==◌, if◌then◌else◌,
  or_else, get_or, find, any, update_where, Result, ok, err, Text, text_eq, truthy,
}
use real_estate_webapp.Http.{HttpError, unauthorized, conflict, internal}
use real_estate_webapp.Identity.{Db, PrincipalKind, RefreshTokenRecord, Meta, revoke_family}
use real_estate_webapp.Session.{
  Config, Moments, Draw, TokenError, rotate, revoke_by_token, issue_refresh_token,
}
use real_estate_webapp.Auth.{AccessTokenClaims, contact_role, Jwt}
use real_estate_webapp.Otp.{OtpConfig, ChallengeRow, OtpRequestResult, OtpVerifyResult, accepted}
use real_estate_webapp.Otp as Otp
use real_estate_webapp.Contacts.{ContactRow, insert_contact}

-- The members of `identity_provider` that the service writes.
pub data IdentityProvider : Type 0 where
  phone_otp password : IdentityProvider

abbrev pub same_provider : IdentityProvider → IdentityProvider → Bool
same_provider phone_otp phone_otp = true
same_provider password password = true
same_provider _ _ = false

pub record IdentityRow : Type 0 where
  pub id : ℕ
  pub contact_id : ℕ
  pub provider : IdentityProvider
  pub provider_uid : Text
  pub secret_hash : Option Text
  pub verified_at : Option ℕ
  pub last_used_at : Option ℕ

pub record Tables : Type 0 where
  pub contacts : List ContactRow
  pub identities : List IdentityRow
  pub challenges : List ChallengeRow
  pub sessions : Db

pub record ContactView : Type 0 where
  pub id : ℕ
  pub full_name : Option Text
  pub phone : Option Text
  pub email : Option Text
  pub whatsapp_opt_in : Bool

pub record ContactAuthResult : Type 0 where
  pub access_token : Text
  pub refresh_token : ℕ
  pub contact : ContactView

-- What one sign-in draws: the ids of a new contact and a new identity, a family and a token.
pub record Draws : Type 0 where
  pub contact_id : ℕ
  pub identity_id : ℕ
  pub family : ℕ
  pub token : Draw

abbrev pub is_identity : IdentityProvider → Text → IdentityRow → Bool
is_identity provider uid r = same_provider r.provider provider && text_eq r.provider_uid uid

-- `INSERT INTO contact_identity`, unique in (provider, provider_uid).
unfoldable pub insert_identity : IdentityRow → List IdentityRow → Option (List IdentityRow)
insert_identity new rows =
    if any (λ r. r.id == new.id || is_identity new.provider new.provider_uid r) rows
    then none
    else some (new ∷ rows)

-- The join of an identity with its contact.
abbrev pub owner_in : List ContactRow → Option IdentityRow → Option (IdentityRow × ContactRow)
owner_in contacts none = none
owner_in contacts (some i) = elim (find (λ c. c.id == i.contact_id) contacts) [
  | none ↦ none
  | some c ↦ some (i, c)
]

unfoldable pub lookup_identity :
    IdentityProvider → Text → Tables → Option (IdentityRow × ContactRow)
lookup_identity provider uid t = owner_in t.contacts (find (is_identity provider uid) t.identities)

abbrev pub contact_claims : ℕ → AccessTokenClaims
contact_claims id = record {
  sub = id;
  org = none;
  role = contact_role;
  kind = PrincipalKind.contact;
}

abbrev pub view : ContactRow → ContactView
view c = record {
  id = c.id;
  full_name = c.full_name;
  phone = c.primary_phone;
  email = c.primary_email;
  whatsapp_opt_in = c.whatsapp_opt_in;
}

abbrev pub invalid_code : HttpError
invalid_code = unauthorized "That code is not valid. Request a new one."

abbrev pub invalid_login : HttpError
invalid_login = unauthorized "Invalid email or password"

abbrev pub session_expired : HttpError
session_expired = unauthorized "Session expired, please sign in again"

abbrev pub touch : ℕ → IdentityRow → IdentityRow
touch now r = record r { last_used_at = some now; verified_at = or_else r.verified_at (some now) }

abbrev pub fill_in : Option Text → Option Bool → ContactRow → ContactRow
fill_in full_name opt_in c = record c {
  full_name = or_else c.full_name full_name;
  whatsapp_opt_in = c.whatsapp_opt_in || get_or opt_in false;
}

-- The transaction of `verifyLoginOtp` for a phone number that has an identity. The contact that it
-- gives back is the row as it was read.
unfoldable pub known_phone :
    ContactRow → Text → Option Text → Option Bool → (now : ℕ) → Tables → Tables
known_phone c phone full_name opt_in now t = record t {
  identities = update_where (is_identity phone_otp phone) (touch now) t.identities;
  contacts =
      if truthy full_name || get_or opt_in false
      then update_where (λ r. r.id == c.id) (fill_in full_name opt_in) t.contacts
      else t.contacts;
}

module _ (same_email : Text → Text → Bool) where
  abbrev pub first_contact : ℕ → Text → Option Text → Option Bool → (now : ℕ) → ContactRow
  first_contact id phone full_name opt_in now = record {
    id = id;
    full_name = full_name;
    primary_phone = some phone;
    primary_email = none;
    phone_verified_at = some now;
    whatsapp_opt_in = get_or opt_in false;
  }

  abbrev pub first_identity : Draws → Text → (now : ℕ) → IdentityRow
  first_identity d phone now = record {
    id = d.identity_id;
    contact_id = d.contact_id;
    provider = phone_otp;
    provider_uid = phone;
    secret_hash = none;
    verified_at = some now;
    last_used_at = some now;
  }

  -- The same transaction for a new phone number; `none` is a violated unique index.
  unfoldable pub new_phone :
      Draws → Text → Option Text → Option Bool → (now : ℕ) → Tables → Option (ContactRow × Tables)
  new_phone d phone full_name opt_in now t =
      let c = first_contact d.contact_id phone full_name opt_in now in
      elim (insert_contact same_email c t.contacts) [
        | none ↦ none
        | some contacts ↦ elim (insert_identity (first_identity d phone now) t.identities) [
          | none ↦ none
          | some identities ↦ some (c, record t { contacts = contacts; identities = identities })
        ]
      ]

  unfoldable pub resolve_phone :
      Option (IdentityRow × ContactRow)
      → Draws
      → Text
      → Option Text
      → Option Bool
      → (now : ℕ) → Tables
      → Option (ContactRow × Tables)
  resolve_phone none d phone full_name opt_in now t = new_phone d phone full_name opt_in now t
  resolve_phone (some (i, c)) d phone full_name opt_in now t =
      some (c, known_phone c phone full_name opt_in now t)

module _ (hash : ℕ → ℕ) (cfg : Config) (jwt : Jwt) where
  unfoldable pub issue_tokens :
      ContactRow → Meta → Draws → (now : ℕ) → Tables → Result HttpError ContactAuthResult × Tables
  issue_tokens c meta d now t =
      elim (issue_refresh_token hash cfg none (some c.id) meta d.family d.token now t.sessions) [
        | err e ↦ (err internal, t)
        | ok sessions ↦ (
          ok (record {
            access_token = jwt.sign now (contact_claims c.id);
            refresh_token = d.token.raw;
            contact = view c;
          }),
          record t { sessions = sessions },
        )
      ]

  unfoldable pub signed_in :
      Option (ContactRow × Tables)
      → Meta
      → Draws
      → (now : ℕ) → Tables
      → Result HttpError ContactAuthResult × Tables
  signed_in none meta d now t = (err internal, t)
  signed_in (some (c, resolved)) meta d now t = issue_tokens c meta d now resolved

  module _ (sha256 : Text → ℕ) (otp : OtpConfig) (same_email : Text → Text → Bool) where
    -- `verifyLoginOtp` once the code is checked, which is a transaction of its own.
    unfoldable pub after_code :
        OtpVerifyResult
        → Text
        → Option Text
        → Option Bool
        → Meta
        → Draws
        → (now : ℕ) → Tables
        → Result HttpError ContactAuthResult × Tables
    after_code accepted phone full_name opt_in meta d now t =
        signed_in
          (resolve_phone same_email (lookup_identity phone_otp phone t) d phone full_name opt_in now
            t)
          meta d now t
    after_code _ phone full_name opt_in meta d now t = (err invalid_code, t)

    unfoldable pub verify_login_otp :
        (phone code : Text)
        → Option Text
        → Option Bool
        → Meta
        → Draws
        → (now : ℕ) → Tables
        → Result HttpError ContactAuthResult × Tables
    verify_login_otp phone code full_name opt_in meta d now t =
        let (answer, challenges) = Otp.verify sha256 otp phone Otp.login code now t.challenges in
        after_code answer phone full_name opt_in meta d now (record t { challenges = challenges })

    unfoldable pub request_login_otp :
        (phone : Text) → (id draw now : ℕ) → Tables → OtpRequestResult × Tables
    request_login_otp phone id draw now t =
        let (answer, challenges) =
          Otp.request sha256 otp phone Otp.login id draw now t.challenges in
        (answer, record t { challenges = challenges })
