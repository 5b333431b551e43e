-- ===== src/Otp/Resend.antt =====
-- Requests for a code, and the code that is sent.
use real_estate_webapp.Prelude.{ℕ, ◌+◌, ◌*◌, ◌-◌, [], ◌∷◌, Text}

-- The number that six digits spell.
abbrev code_value : Text → ℕ
code_value (a ∷ b ∷ c ∷ e ∷ f ∷ g ∷ []) =
    (a - 48) * 100000
    + (b - 48) * 10000
    + (c - 48) * 1000
    + (e - 48) * 100
    + (f - 48) * 10
    + (g - 48)
code_value _ = 0
