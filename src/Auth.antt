-- ===== src/Auth.antt =====
-- Access tokens: the claims of token.service.ts, and the signing library as an interface.
pub mod Staff
pub mod Guard
pub mod Contact
mod Tests
use real_estate_webapp.Prelude.{ℕ, ◌+◌, ◌<◌, ◌≡◌, Option, some, Text, trim}
use real_estate_webapp.Identity.{UserRole, PrincipalKind}

pub data RoleClaim : Type 0 where
  role : UserRole → RoleClaim
  contact_role : RoleClaim

pub record AccessTokenClaims : Type 0 where
  pub sub : ℕ
  pub org : Option ℕ
  pub role : RoleClaim
  pub kind : PrincipalKind

-- `JwtService` with the access secret and its time to live. A signature can be verified until it
-- runs out, and a token is base64url text, which trimming leaves alone.
pub record Jwt : Type 0 where
  pub ttl_ms : ℕ
  pub sign : ℕ → AccessTokenClaims → Text
  pub verify : ℕ → Text → Option AccessTokenClaims
  pub verify-sign :
      (issued now : ℕ) (c : AccessTokenClaims)
      → now < issued + ttl_ms
      → verify now (sign issued c) ≡ some c
  pub trim-sign : (issued : ℕ) (c : AccessTokenClaims) → trim (sign issued c) ≡ sign issued c
