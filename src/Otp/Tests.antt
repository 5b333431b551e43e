-- ===== src/Otp/Tests.antt =====
-- Runs of the code service on one challenge, and the theorems about it at that table.
use real_estate_webapp.Prelude.{
  ℕ, ◌+◌, ◌*◌, ◌≤◌, ◌≡◌, ◌↔◌, refl, List, [], ◌∷◌, arith, any, find, update_where, count_where,
  Text, codes, text_eq, true,
}
use real_estate_webapp.Otp.{
  OtpConfig, login, ChallengeRow, accepted, generate_code, latest, remaining_cooldown, hash_code,
  new_challenge, request, verify_challenge, verify, purpose_eq,
}
use real_estate_webapp.Otp.Live.{IsSingle, request-IsSingle}
use real_estate_webapp.Otp.Guessing.{guesses, IsDue, guesses-le-max, verify-accepted_iff}

service : Unit {0}
unfolding request verify verify_challenge latest remaining_cooldown new_challenge hash_code
    generate_code purpose_eq any find update_where count_where text_eq
service = tt

-- A digest that tells short texts of small code units apart.
abbrev digest : Text → ℕ
digest [] = 1
digest (c ∷ s) = c + 1000 * digest s

abbrev config : OtpConfig
config = record {
  ttl_seconds = 300;
  max_attempts = 3;
  resend_cooldown_seconds = 60;
  is_production = true;
}

abbrev phone : Text
phone = codes "+91"

abbrev rows : List ChallengeRow
rows = new_challenge digest config phone login 1 123456 5000 ∷ []

single : IsSingle []
unfolding service
single d p = omega arith

rows-IsSingle : IsSingle rows
unfolding service
rows-IsSingle = request-IsSingle digest config phone login 1 123456 5000 [] single

accepts : (verify digest config phone login (codes "123456") 9000 rows).0 ≡ accepted
unfolding service
accepts = refl

guesses-le-max_example :
    guesses digest config phone login
      ((codes "000000", 9000)
        ∷ (codes "000001", 9001)
        ∷ (codes "000002", 9002)
        ∷ (codes "123456", 9003)
        ∷ [])
      rows
    ≤ 3
guesses-le-max_example =
    guesses-le-max digest config phone login
      ((codes "000000", 9000)
        ∷ (codes "000001", 9001)
        ∷ (codes "000002", 9002)
        ∷ (codes "123456", 9003)
        ∷ [])
      rows rows-IsSingle

verify-accepted_iff_example :
    ((verify digest config phone login (codes "123456") 9000 rows).0 ≡ accepted)
    ↔ IsDue digest config phone login (codes "123456") 9000 rows
verify-accepted_iff_example =
    verify-accepted_iff digest config phone login (codes "123456") 9000 rows rows-IsSingle
