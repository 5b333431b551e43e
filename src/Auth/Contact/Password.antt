-- ===== src/Auth/Contact/Password.antt =====
-- `loginWithPassword` and `linkEmailPassword` of contact-auth.service.ts.
--
-- Argon2 is the parameter `verify_password`, and its hash of a new password is an argument.
use real_estate_webapp.Prelude.{
  ℕ, Bool, false, Option, none, some, List, [], ◌∷◌, ◌==◌, if◌then◌else◌, not, or_else, find, any,
  update_where, Result, ok, err, Text,
}
use real_estate_webapp.Http.{HttpError, conflict, internal}
use real_estate_webapp.Identity.{Meta}
use real_estate_webapp.Session.{Config}
use real_estate_webapp.Auth.{Jwt}
use real_estate_webapp.Contacts.{ContactRow, update_contact}
use real_estate_webapp.Auth.Contact.{
  IdentityRow, Tables, ContactAuthResult, Draws, password, is_identity, lookup_identity,
  invalid_login, insert_identity, issue_tokens,
}

module _ (hash : ℕ → ℕ) (cfg : Config) (jwt : Jwt) where
  module _ (verify_password : Text → Text → Bool) where
    abbrev pub proves : Text → Option Text → Bool
    proves given none = false
    proves given (some []) = false
    proves given (some (c ∷ s)) = verify_password (c ∷ s) given

    unfoldable pub password_found :
        Option (IdentityRow × ContactRow)
        → Text
        → Meta
        → Draws
        → (now : ℕ) → Tables
        → Result HttpError ContactAuthResult × Tables
    password_found none given meta d now t = (err invalid_login, t)
    password_found (some (i, c)) given meta d now t =
        if proves given i.secret_hash
        then issue_tokens hash cfg jwt c meta d now (record t {
          identities =
              update_where (λ r. r.id == i.id) (λ r. record r { last_used_at = some now })
                t.identities;
        })
        else (err invalid_login, t)

    unfoldable pub login_with_password :
        (email password : Text)
        → Meta
        → Draws
        → (now : ℕ) → Tables
        → Result HttpError ContactAuthResult × Tables
    login_with_password email given meta d now t =
        password_found (lookup_identity password email t) given meta d now t

abbrev pub set_email : Text → ContactRow → ContactRow
set_email email c = record c { primary_email = or_else c.primary_email (some email) }

-- `INSERT … ON CONFLICT (provider, provider_uid) DO UPDATE SET secret_hash`.
unfoldable pub upsert_secret :
    (id contact_id : ℕ) → (email secret : Text) → List IdentityRow → Option (List IdentityRow)
upsert_secret id contact_id email secret rows =
    if any (is_identity password email) rows
    then some (
        update_where (is_identity password email) (λ r. record r { secret_hash = some secret })
          rows)
    else insert_identity
        (record {
          id = id;
          contact_id = contact_id;
          provider = password;
          provider_uid = email;
          secret_hash = some secret;
          verified_at = none;
          last_used_at = none;
        })
        rows

abbrev pub taken : (contact_id : ℕ) → Option IdentityRow → Bool
taken contact_id none = false
taken contact_id (some r) = not (r.contact_id == contact_id)

module _ (same_email : Text → Text → Bool) where
  -- The last statement of the transaction. For a contact that is gone the foreign key of the identity
  -- has failed before.
  unfoldable pub record_email : (contact_id : ℕ) → Text → List ContactRow → Option (List ContactRow)
  record_email contact_id email rows = elim (find (λ r. r.id == contact_id) rows) [
    | none ↦ none
    | some c ↦ update_contact same_email (set_email email) c rows
  ]

  -- `err` rolls the whole transaction back.
  unfoldable pub link_email_password :
      (contact_id id : ℕ) → (email secret : Text) → Tables → Result {0, 0} HttpError Unit × Tables
  link_email_password contact_id id email secret t =
      if taken contact_id (find (is_identity password email) t.identities)
      then (err (conflict "That email is already linked to another account"), t)
      else elim (upsert_secret id contact_id email secret t.identities) [
        | none ↦ (err internal, t)
        | some identities ↦ elim (record_email contact_id email t.contacts) [
          | none ↦ (err internal, t)
          | some contacts ↦ (ok tt, record t { identities = identities; contacts = contacts })
        ]
      ]
