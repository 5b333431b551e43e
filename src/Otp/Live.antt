-- ===== src/Otp/Live.antt =====
-- At most one open challenge for a destination and a purpose.
use real_estate_webapp.Prelude.{
  ℕ, ◌≤◌, ◌≡◌, ◌∙◌, refl, sym, subst, Bool, true, false, Option, none, some, List, [], ◌∷◌, arith,
  find, any, update_where, count_where, any_of_count, any-update_where_self, count_where-update_le,
  count_where_of_any, Text, eq_of_text_eq, Bool-cases, inl, inr,
}
use real_estate_webapp.Otp.{
  OtpPurpose, login, verify_contact, reset, purpose_eq, OtpConfig, ChallengeRow, is_for, is_open,
  latest, consume, attempted, has_id, new_challenge, request, verify_challenge, verify,
}

-- Each destination and purpose has at most one open challenge.
abbrev pub IsSingle : List ChallengeRow → Type 0
IsSingle rows = (d : Text) (p : OtpPurpose) → count_where (is_open d p) rows ≤ 1

latest-none :
    (p : ChallengeRow → Bool) (rows : List ChallengeRow) → any p rows ≡ false → latest p rows ≡ none
unfolding latest any
latest-none p [] h = refl
latest-none p (r ∷ rows) h = ground (arith, latest-none p rows)

-- Of at most one row, the newest is the one that a search finds.
pub latest-find :
    (p : ChallengeRow → Bool) (rows : List ChallengeRow)
    → count_where p rows ≤ 1
    → latest p rows ≡ find p rows
unfolding latest find count_where
latest-find p [] h = refl
latest-find p (r ∷ rows) h =
    ground (arith, latest-find p rows, latest-none p rows, any_of_count p rows)

purpose_eq-eq : (p q : OtpPurpose) → purpose_eq p q ≡ true → p ≡ q
unfolding purpose_eq
purpose_eq-eq login login h = refl
purpose_eq-eq verify_contact verify_contact h = refl
purpose_eq-eq reset reset h = refl
purpose_eq-eq login verify_contact h = absurd (ground arith)
purpose_eq-eq login reset h = absurd (ground arith)
purpose_eq-eq verify_contact login h = absurd (ground arith)
purpose_eq-eq verify_contact reset h = absurd (ground arith)
purpose_eq-eq reset login h = absurd (ground arith)
purpose_eq-eq reset verify_contact h = absurd (ground arith)

consumed_not_open :
    (d : Text) (p : OtpPurpose) (now : ℕ) (r : ChallengeRow) → is_open d p (consume now r) ≡ false
consumed_not_open d p now r = ground arith

pub consume-IsSingle :
    (q : ChallengeRow → Bool) (now : ℕ) (rows : List ChallengeRow)
    → IsSingle rows
    → IsSingle (update_where q (consume now) rows)
consume-IsSingle q now rows s d p = omega (
  arith,
  s d p,
  count_where-update_le (is_open d p) q (consume now) (λ r _. consumed_not_open d p now r) rows,
)

pub attempt-IsSingle :
    (q : ChallengeRow → Bool) (rows : List ChallengeRow)
    → IsSingle rows
    → IsSingle (update_where q attempted rows)
attempt-IsSingle q rows s d p =
    omega (arith, s d p, count_where-update_le (is_open d p) q attempted (λ r h. h) rows)

-- The row that a new challenge is for has no other open challenge.
request_count :
    (d d' : Text) (p p' : OtpPurpose) (row : ChallengeRow) (now : ℕ) (rows : List ChallengeRow)
    → IsSingle rows
    → row.destination ≡ d
    → row.purpose ≡ p
    → count_where (is_open d' p') (row ∷ update_where (is_open d p) (consume now) rows) ≤ 1
unfolding count_where
request_count d d' p p' row now rows s ed ep = elim (Bool-cases (is_for d' p' row)) [
  | inr other ↦ ground (arith, other, consume-IsSingle (is_open d p) now rows s d' p')
  | inl own ↦
      let d-same : d ≡ d' = sym ed ∙ eq_of_text_eq row.destination d' (ground arith) in
      let p-same : p ≡ p' = sym ep ∙ purpose_eq-eq row.purpose p' (ground arith) in
      let gone : any (is_open d' p') (update_where (is_open d p) (consume now) rows) ≡ false =
        subst (λ x. any (is_open x p') (update_where (is_open d p) (consume now) rows) ≡ false)
          d-same
          (subst (λ x. any (is_open d x) (update_where (is_open d p) (consume now) rows) ≡ false)
            p-same
            (any-update_where_self (is_open d p) (consume now) (λ r. consumed_not_open d p now r)
              rows)) in
      ground (arith, count_where_of_any (is_open d' p') _ gone)
]

module _ (sha256 : Text → ℕ) (cfg : OtpConfig) where
  -- A request leaves at most one open code for each destination and purpose, where there was at most
  -- one before.
  pub request-IsSingle :
      (d : Text) (p : OtpPurpose) (id draw now : ℕ) (rows : List ChallengeRow)
      → IsSingle rows
      → IsSingle (request sha256 cfg d p id draw now rows).1
  unfolding request new_challenge
  request-IsSingle d p id draw now rows s d' p' = ground (
    arith,
    s d' p',
    request_count d d' p p' (new_challenge sha256 cfg d p id draw now) now rows s refl refl,
  )

  challenge-IsSingle :
      (o : Option ChallengeRow) (d code : Text) (now : ℕ) (rows : List ChallengeRow)
      → IsSingle rows
      → IsSingle (verify_challenge sha256 cfg o d code now rows).1
  unfolding verify_challenge
  challenge-IsSingle none d code now rows s d' p' = s d' p'
  challenge-IsSingle (some c) d code now rows s d' p' = ground (
    arith,
    consume-IsSingle (has_id c.id) now rows s d' p',
    attempt-IsSingle (has_id c.id) rows s d' p',
    consume-IsSingle (has_id c.id) now _ (attempt-IsSingle (has_id c.id) rows s) d' p',
  )

  -- An attempt leaves at most one open code for each destination and purpose, where there was at most
  -- one before.
  pub verify-IsSingle :
      (d : Text) (p : OtpPurpose) (code : Text) (now : ℕ) (rows : List ChallengeRow)
      → IsSingle rows
      → IsSingle (verify sha256 cfg d p code now rows).1
  unfolding verify
  verify-IsSingle d p code now rows = challenge-IsSingle _ d code now rows
