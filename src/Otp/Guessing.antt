-- ===== src/Otp/Guessing.antt =====
-- How many codes can be tried, and when one is accepted.
use real_estate_webapp.Prelude.{
  ℕ, ◌+◌, ◌-◌, ◌≤◌, ◌<◌, ◌≡◌, ◌∙◌, ◌↔◌, refl, Option, none, some, List, [], ◌∷◌, arith, find,
  update_where, ==_iff, any-update_where_single, find-update_where, find-none_of_any, Text,
  Option-cases, inl, inr,
}
use real_estate_webapp.Otp.{
  OtpPurpose, OtpConfig, ChallengeRow, OtpVerifyResult, accepted, expired, not_found,
  too_many_attempts, mismatch, is_open, consume, attempted, has_id, hash_code, verify_challenge,
  verify,
}
use real_estate_webapp.Otp.Live.{IsSingle, latest-find, attempt-IsSingle, verify-IsSingle}

-- Whether an answer was reached by comparing the submitted code.
abbrev pub compared : OtpVerifyResult → ℕ
compared accepted = 1
compared mismatch = 1
compared expired = 0
compared not_found = 0
compared too_many_attempts = 0

abbrev pub left : ℕ → Option ChallengeRow → ℕ
left most none = 0
left most (some c) = most - c.attempts

left-le : {most : ℕ} (o : Option ChallengeRow) → left most o ≤ most
left-le none = omega arith
left-le (some c) = omega arith

module _ (sha256 : Text → ℕ) (cfg : OtpConfig) (d : Text) (p : OtpPurpose) where
  -- The comparisons that the open challenge still allows.
  abbrev pub budget : List ChallengeRow → ℕ
  budget rows = left cfg.max_attempts (find (is_open d p) rows)

  closed_after :
      (c : ChallengeRow) (now : ℕ) (rows : List ChallengeRow)
      → IsSingle rows
      → find (is_open d p) rows ≡ some c
      → find (is_open d p) (update_where (has_id c.id) (consume now) rows) ≡ none
  closed_after c now rows s f = find-none_of_any (is_open d p) _ (
      any-update_where_single (is_open d p) (has_id c.id) (consume now) (λ r. ground arith) rows c
        (s d p) f ((==_iff c.id c.id).1 refl))

  counted_after :
      (c : ChallengeRow) (rows : List ChallengeRow)
      → find (is_open d p) rows ≡ some c
      → find (is_open d p) (update_where (has_id c.id) attempted rows) ≡ some (attempted c)
  counted_after c rows f =
      find-update_where (is_open d p) (has_id c.id) attempted (λ r. refl) rows c f
      ∙ rw ((==_iff c.id c.id).1 refl) refl

  accepted_closes :
      (c : ChallengeRow) (now : ℕ) (rows : List ChallengeRow)
      → IsSingle rows
      → find (is_open d p) rows ≡ some c
      → find
          (is_open d p)
          (update_where (has_id c.id) (consume now) (update_where (has_id c.id) attempted rows))
        ≡ none
  accepted_closes c now rows s f =
      closed_after (attempted c) now (update_where (has_id c.id) attempted rows)
        (attempt-IsSingle (has_id c.id) rows s) (counted_after c rows f)

  -- Each comparison uses up one attempt, and no answer gives attempts back.
  challenge_budget :
      (c : ChallengeRow) (code : Text) (now : ℕ) (rows : List ChallengeRow)
      → IsSingle rows
      → find (is_open d p) rows ≡ some c
      → compared (verify_challenge sha256 cfg (some c) d code now rows).0
          + budget (verify_challenge sha256 cfg (some c) d code now rows).1
        ≤ cfg.max_attempts - c.attempts
  unfolding verify_challenge
  challenge_budget c code now rows s f =
      ground
        (arith, closed_after c now rows s f, counted_after c rows f, accepted_closes c now rows s f)

  verify_budget :
      (code : Text) (now : ℕ) (rows : List ChallengeRow)
      → IsSingle rows
      → compared (verify sha256 cfg d p code now rows).0
          + budget (verify sha256 cfg d p code now rows).1
        ≤ budget rows
  unfolding verify verify_challenge
  verify_budget code now rows s = elim (Option-cases (find (is_open d p) rows)) [
    | inl none_open ↦
        rw (latest-find (is_open d p) rows (s d p), none_open) (rw none_open (omega arith))
    | inr (c, f) ↦
        rw (latest-find (is_open d p) rows (s d p), f) (challenge_budget c code now rows s f)
  ]

  -- Submissions one after another, with no new code requested in between: how many are compared.
  unfoldable pub guesses : List (Text × ℕ) → List ChallengeRow → ℕ
  guesses [] rows = 0
  guesses ((code, now) ∷ more) rows =
      let (answer, after) = verify sha256 cfg d p code now rows in
      compared answer + guesses more after

  guesses-le-budget :
      (tries : List (Text × ℕ)) (rows : List ChallengeRow)
      → IsSingle rows
      → guesses tries rows ≤ budget rows
  unfolding guesses
  guesses-le-budget [] rows s = omega arith
  guesses-le-budget ((code, now) ∷ more) rows s = omega (
    arith,
    verify_budget code now rows s,
    guesses-le-budget more (verify sha256 cfg d p code now rows).1
        (verify-IsSingle sha256 cfg d p code now rows s),
  )

  -- Where at most one code is open for each destination and purpose, which holds as long as no two
  -- requests for a code overlap, and codes are verified one after another: however many are submitted,
  -- and at whatever times, at most OTP_MAX_ATTEMPTS of them are compared with a code until a new code
  -- is requested.
  pub guesses-le-max :
      (tries : List (Text × ℕ)) (rows : List ChallengeRow)
      → IsSingle rows
      → guesses tries rows ≤ cfg.max_attempts
  guesses-le-max tries rows s =
      omega (arith, guesses-le-budget tries rows s, left-le (find (is_open d p) rows))

  -- What an accepted code needs: the open challenge, unexpired, with attempts left, and its digest.
  pub record IsDue (code : Text) (now : ℕ) (rows : List ChallengeRow) : Type 0 where
    pub challenge : ChallengeRow
    pub open_one : find (is_open d p) rows ≡ some challenge
    pub unexpired : now < challenge.expires_at
    pub attempts_left : challenge.attempts < cfg.max_attempts
    pub right_code : challenge.code_hash ≡ hash_code sha256 cfg d code

  not_found_not_accepted :
      (code : Text) (now : ℕ) (rows : List ChallengeRow)
      → (verify_challenge sha256 cfg none d code now rows).0 ≡ accepted
      → ⊥
  unfolding verify_challenge
  not_found_not_accepted code now rows h = ground arith

  verify-IsDue :
      (code : Text) (now : ℕ) (rows : List ChallengeRow)
      → IsSingle rows
      → (verify sha256 cfg d p code now rows).0 ≡ accepted
      → IsDue code now rows
  unfolding verify verify_challenge
  verify-IsDue code now rows s h = elim (Option-cases (find (is_open d p) rows)) [
    | inl none_open ↦ absurd (
        not_found_not_accepted code now rows
          (rw (latest-find (is_open d p) rows (s d p), none_open) at h))
    | inr (c, f) ↦
        let h' = rw (latest-find (is_open d p) rows (s d p), f) at h in
        record {
          challenge = c;
          open_one = f;
          unexpired = ground arith;
          attempts_left = ground arith;
          right_code = ground arith;
        }
  ]

  IsDue-verify :
      (code : Text) (now : ℕ) (rows : List ChallengeRow)
      → IsSingle rows
      → IsDue code now rows
      → (verify sha256 cfg d p code now rows).0 ≡ accepted
  unfolding verify verify_challenge
  IsDue-verify code now rows s due =
      rw (latest-find (is_open d p) rows (s d p), due.open_one)
        (ground (arith, due.unexpired, due.attempts_left, due.right_code))

  -- Where at most one code is open for each destination and purpose, a code is accepted exactly when
  -- it is the code of the open challenge, before that expires and while attempts are left.
  pub verify-accepted_iff :
      (code : Text) (now : ℕ) (rows : List ChallengeRow)
      → IsSingle rows
      → ((verify sha256 cfg d p code now rows).0 ≡ accepted) ↔ IsDue code now rows
  verify-accepted_iff code now rows s = (verify-IsDue code now rows s, IsDue-verify code now rows s)
