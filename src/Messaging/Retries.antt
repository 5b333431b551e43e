-- ===== src/Messaging/Retries.antt =====
-- How often a message is tried, and what decides the result.
use real_estate_webapp.Prelude.{
  ℕ, zero, suc, ◌+◌, ◌<◌, ◌≡◌, refl, String, Bool, true, false, List, [], ◌∷◌, arith,
}
use real_estate_webapp.Messaging.{
  OutboundTemplateMessage, SendOutcome, sent, outbound_send_error, other_error,
  OutboundMessageProvider, OutboundConfig, OutboundAttempt, send_from, send,
}

-- An answer that ends the loop: a success, or a rejection that no retry can change.
abbrev pub decides : SendOutcome → Bool
decides (sent id by) = true
decides (outbound_send_error error true) = false
decides (outbound_send_error error false) = true
decides (other_error error) = false

abbrev pub succeeded : SendOutcome → Bool
succeeded (sent id by) = true
succeeded (outbound_send_error error retryable) = false
succeeded (other_error error) = false

abbrev pub total : List ℕ → ℕ
total [] = 0
total (w ∷ waits) = w + total waits

module _ (cfg : OutboundConfig) (provider : OutboundMessageProvider)
    (message : OutboundTemplateMessage) where
  -- Calls `from`, `from` + 1, …, `from` + n - 1 all failed in a way that is worth a retry.
  abbrev pub AllRetryable : ℕ → ℕ → Type 0
  AllRetryable from zero = Unit
  AllRetryable from (suc n) =
      (decides (provider.send from message) ≡ false) × AllRetryable (from + 1) n

  -- What the loop answers: the first deciding call, or a failure after the last attempt.
  pub data Settles (from left : ℕ) (a : OutboundAttempt) : Type 0 where
    decided :
        (n last : ℕ)
        → last ≡ from + n
        → n < left
        → AllRetryable from n
        → decides (provider.send last message) ≡ true
        → a.done ≡ succeeded (provider.send last message)
        → a.attempts ≡ last
        → Settles from left a
    exhausted :
        AllRetryable from left
        → a.done ≡ false
        → a.attempts ≡ cfg.max_attempts
        → Settles from left a

  later :
      (from left : ℕ) (a : OutboundAttempt)
      → decides (provider.send from message) ≡ false
      → Settles (from + 1) left a
      → Settles from (suc left) a
  later from left a failing (decided n last at in_range earlier here same_done same_attempts) =
      decided (suc n) last (omega arith) (omega arith) (failing, earlier) here same_done
        same_attempts
  later from left a failing (exhausted earlier same_done same_attempts) =
      exhausted (failing, earlier) same_done same_attempts

  step-Settles :
      (left attempt : ℕ) (last_error : String) (o : SendOutcome)
      → provider.send attempt message ≡ o
      → ((e : String)
          → Settles (attempt + 1) left (send_from cfg provider message left (attempt + 1) e).0)
      → Settles attempt (suc left) (send_from cfg provider message (suc left) attempt last_error).0
  unfolding send_from
  step-Settles left attempt last_error (sent id by) e rest =
      rw (e, send_from)
        (decided 0 attempt (omega arith) (omega arith) tt (ground (arith, e)) (ground (arith, e))
          refl)
  step-Settles left attempt last_error (outbound_send_error error true) e rest =
      rw (e, send_from) (later attempt left _ (ground (arith, e)) (rest error))
  step-Settles left attempt last_error (outbound_send_error error false) e rest =
      rw (e, send_from)
        (decided 0 attempt (omega arith) (omega arith) tt (ground (arith, e)) (ground (arith, e))
          refl)
  step-Settles left attempt last_error (other_error error) e rest =
      rw (e, send_from) (later attempt left _ (ground (arith, e)) (rest error))

  send_from-Settles :
      (left attempt : ℕ) (last_error : String)
      → Settles attempt left (send_from cfg provider message left attempt last_error).0
  unfolding send_from
  send_from-Settles zero attempt last_error = exhausted tt refl refl
  send_from-Settles (suc left) attempt last_error =
      step-Settles left attempt last_error (provider.send attempt message) refl
        (send_from-Settles left (attempt + 1))

  -- A message is tried at most OUTBOUND_MAX_ATTEMPTS times, never again after a success or a permanent
  -- rejection, and succeeds exactly when the call that ends the loop does.
  pub send-Settles : Settles 1 cfg.max_attempts (send cfg provider message).0
  unfolding send
  send-Settles = send_from-Settles cfg.max_attempts 1 "unknown error"
