-- ===== src/Messaging.antt =====
-- apps/api/src/messaging: the retry policy of outbound-message.service.ts over an
-- `OutboundMessageProvider`.
--
-- A provider answers its n-th call; what it throws is an `OutboundSendError` or any other error. The
-- waits between the calls, in milliseconds, are returned beside the result.
pub mod Retries
mod Tests
use real_estate_webapp.Prelude.{
  ℕ, zero, suc, ◌+◌, ◌-◌, ◌*◌, ◌^◌, String, Bool, true, false, Option, none, some, List, [], ◌∷◌,
  ltb, if◌then◌else◌, Text,
}

pub record OutboundTemplateMessage : Type 0 where
  pub to_phone_e164 : Text
  pub template : String
  pub variables : List Text
  pub language_code : String

pub data SendOutcome : Type 0 where
  sent : (provider_message_id : String) → (provider : String) → SendOutcome
  outbound_send_error : (message : String) → (retryable : Bool) → SendOutcome
  other_error : (message : String) → SendOutcome

pub record OutboundMessageProvider : Type 0 where
  pub name : String
  pub can_deliver : Bool
  pub send : ℕ → OutboundTemplateMessage → SendOutcome

pub record OutboundConfig : Type 0 where
  pub max_attempts : ℕ
  pub retry_base_ms : ℕ

pub record OutboundAttempt : Type 0 where
  pub done : Bool
  pub provider : String
  pub delivered : Bool
  pub provider_message_id : Option String
  pub error : Option String
  pub attempts : ℕ

module _ (cfg : OutboundConfig) (provider : OutboundMessageProvider) where
  abbrev pub failed : String → ℕ → OutboundAttempt
  failed error attempts = record {
    done = false;
    provider = provider.name;
    delivered = false;
    provider_message_id = none;
    error = some error;
    attempts = attempts;
  }

  -- `delay`, unless this was the last attempt.
  abbrev pub wait_before : (attempt : ℕ) → List ℕ → List ℕ
  wait_before attempt waits =
      if ltb attempt cfg.max_attempts
      then (cfg.retry_base_ms * 2 ^ (attempt - 1)) ∷ waits
      else waits

  -- The loop: `left` rounds remain, and the next one is number `attempt`.
  unfoldable pub send_from :
      OutboundTemplateMessage
      → (left attempt : ℕ) → (last_error : String) → OutboundAttempt × List ℕ
  send_from message zero attempt last_error = (failed last_error cfg.max_attempts, [])
  send_from message (suc left) attempt last_error = elim (provider.send attempt message) [
    | sent id by ↦ (
      record {
        done = true;
        provider = by;
        delivered = provider.can_deliver;
        provider_message_id = some id;
        error = none;
        attempts = attempt;
      },
      [],
    )
    | outbound_send_error error retryable ↦ elim retryable [
      | true ↦
          let (result, waits) = send_from message left (attempt + 1) error in
          (result, wait_before attempt waits)
      | false ↦ (failed error attempt, [])
    ]
    | other_error error ↦
        let (result, waits) = send_from message left (attempt + 1) error in
        (result, wait_before attempt waits)
  ]

  unfoldable pub send : OutboundTemplateMessage → OutboundAttempt × List ℕ
  send message = send_from message cfg.max_attempts 1 "unknown error"
