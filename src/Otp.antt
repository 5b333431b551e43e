-- ===== src/Otp.antt =====
-- apps/api/src/identity/services/otp.service.ts: one-time codes for phone login, over the table
-- `otp_challenge` of migration 0003.
--
-- SHA-256 is the parameter `sha256`; `randomInt` is a number that the call is given. `now` is the
-- reading of the API's clock and of the database's `now()` in one call.
pub mod Live
pub mod Guessing
pub mod Resend
mod Tests
use real_estate_webapp.Prelude.{
  ℕ, suc, ◌+◌, ◌-◌, ◌*◌, ◌/◌, ◌%◌, ◌^◌, Bool, true, false, ◌&&◌, Option, none, some, List, [], ◌∷◌,
  ◌++◌, ltb, leb, ◌==◌, if◌then◌else◌, is_none, update_where, Text, text_eq,
}

pub data OtpPurpose : Type 0 where
  login verify_contact reset : OtpPurpose

unfoldable pub purpose_eq : OtpPurpose → OtpPurpose → Bool
purpose_eq login login = true
purpose_eq verify_contact verify_contact = true
purpose_eq reset reset = true
purpose_eq _ _ = false

pub record OtpConfig : Type 0 where
  pub ttl_seconds : ℕ
  pub max_attempts : ℕ
  pub resend_cooldown_seconds : ℕ
  pub is_production : Bool

pub record ChallengeRow : Type 0 where
  pub id : ℕ
  pub destination : Text
  pub code_hash : ℕ
  pub purpose : OtpPurpose
  pub attempts : ℕ
  pub expires_at : ℕ
  pub consumed_at : Option ℕ
  pub created_at : ℕ

pub record OtpRequestResult : Type 0 where
  pub retry_after_seconds : ℕ
  pub dev_code : Option Text

pub data OtpVerifyResult : Type 0 where
  accepted expired not_found too_many_attempts mismatch : OtpVerifyResult

-- `String(n).padStart(6, "0")` for a draw below a million.
unfoldable pub generate_code : ℕ → Text
generate_code n =
    (48 + n / 100000 % 10)
    ∷ (48 + n / 10000 % 10)
    ∷ (48 + n / 1000 % 10)
    ∷ (48 + n / 100 % 10)
    ∷ (48 + n / 10 % 10)
    ∷ (48 + n % 10)
    ∷ []

abbrev pub is_for : Text → OtpPurpose → ChallengeRow → Bool
is_for destination purpose r = text_eq r.destination destination && purpose_eq r.purpose purpose

abbrev pub is_open : Text → OtpPurpose → ChallengeRow → Bool
is_open destination purpose r = is_for destination purpose r && is_none r.consumed_at

-- `ORDER BY created_at DESC LIMIT 1` over the rows that pass a test.
abbrev pub newer : ChallengeRow → Option ChallengeRow → Option ChallengeRow
newer r none = some r
newer r (some s) = if ltb r.created_at s.created_at then some s else some r

unfoldable pub latest : (ChallengeRow → Bool) → List ChallengeRow → Option ChallengeRow
latest p [] = none
latest p (r ∷ rows) = if p r then newer r (latest p rows) else latest p rows

abbrev pub consume : ℕ → ChallengeRow → ChallengeRow
consume now r = record r { consumed_at = some now }

abbrev pub attempted : ChallengeRow → ChallengeRow
attempted r = record r { attempts = r.attempts + 1 }

abbrev pub has_id : ℕ → ChallengeRow → Bool
has_id i r = r.id == i

module _ (cfg : OtpConfig) where
  -- `Math.ceil(cooldown - elapsed)` in seconds, from milliseconds, and 0 where that is not positive.
  abbrev pub cooldown_of : (now : ℕ) → Option ChallengeRow → ℕ
  cooldown_of now none = 0
  cooldown_of now (some last) =
      (cfg.resend_cooldown_seconds * 1000 + last.created_at - now + 999) / 1000

  unfoldable pub remaining_cooldown : Text → OtpPurpose → (now : ℕ) → List ChallengeRow → ℕ
  remaining_cooldown destination purpose now rows =
      cooldown_of now (latest (is_for destination purpose) rows)

module _ (sha256 : Text → ℕ) (cfg : OtpConfig) where
  unfoldable pub hash_code : Text → Text → ℕ
  hash_code destination code = sha256 (destination ++ b':' ∷ code)

  unfoldable pub new_challenge : Text → OtpPurpose → (id draw now : ℕ) → ChallengeRow
  unfolding hash_code
  new_challenge destination purpose id draw now = record {
    id = id;
    destination = destination;
    code_hash = hash_code destination (generate_code draw);
    purpose = purpose;
    attempts = 0;
    expires_at = now + cfg.ttl_seconds * 1000;
    consumed_at = none;
    created_at = now;
  }

  unfoldable pub request :
      Text
      → OtpPurpose
      → (id draw now : ℕ) → List ChallengeRow
      → OtpRequestResult × List ChallengeRow
  request destination purpose id draw now rows =
      let cooldown = remaining_cooldown cfg destination purpose now rows in
      if ltb 0 cooldown
      then (record { retry_after_seconds = cooldown; dev_code = none }, rows)
      else (
        record {
          retry_after_seconds = cfg.resend_cooldown_seconds;
          dev_code = if cfg.is_production then none else some (generate_code draw);
        },
        new_challenge destination purpose id draw now
            ∷ update_where (is_open destination purpose) (consume now) rows,
      )

  -- `verify` once the newest open challenge is read and locked.
  unfoldable pub verify_challenge :
      Option ChallengeRow
      → Text
      → (code : Text) → (now : ℕ) → List ChallengeRow
      → OtpVerifyResult × List ChallengeRow
  verify_challenge none destination code now rows = (not_found, rows)
  verify_challenge (some c) destination code now rows =
      if leb c.expires_at now
      then (expired, update_where (has_id c.id) (consume now) rows)
      else if leb cfg.max_attempts c.attempts
      then (too_many_attempts, update_where (has_id c.id) (consume now) rows)
      else let counted = update_where (has_id c.id) attempted rows in
        if c.code_hash == hash_code destination code
        then (accepted, update_where (has_id c.id) (consume now) counted)
        else (mismatch, counted)

  unfoldable pub verify :
      Text
      → OtpPurpose
      → (code : Text) → (now : ℕ) → List ChallengeRow
      → OtpVerifyResult × List ChallengeRow
  verify destination purpose code now rows =
      verify_challenge (latest (is_open destination purpose) rows) destination code now rows
