-- ===== src/Auth/Guard.antt =====
-- apps/api/src/identity/guards/jwt-auth.guard.ts: who may call a route, and under which tenant.
pub mod Access
mod Tests
use real_estate_webapp.Prelude.{
  ℕ, Bool, true, false, Option, none, some, if◌then◌else◌, Result, ok, err, Text, codes, trim,
  strip_prefix,
}
use real_estate_webapp.Http.{HttpError, unauthorized}
use real_estate_webapp.Identity.{PrincipalKind}
use real_estate_webapp.Auth.{AccessTokenClaims, Jwt}

-- The metadata of a route: `Public`, and `StaffOnly` or `ContactOnly`.
pub record RouteAccess : Type 0 where
  pub is_public : Bool
  pub principal_kind : Option PrincipalKind

-- What the guard attaches to the request.
pub record Caller : Type 0 where
  pub principal : AccessTokenClaims
  pub organization_id : Option ℕ
  pub is_platform_admin : Bool

abbrev pub same_kind : PrincipalKind → PrincipalKind → Bool
same_kind PrincipalKind.staff PrincipalKind.staff = true
same_kind PrincipalKind.contact PrincipalKind.contact = true
same_kind _ _ = false

abbrev pub fits : Option PrincipalKind → PrincipalKind → Bool
fits none kind = true
fits (some required) kind = same_kind kind required

abbrev pub bearer : Text
bearer = codes "Bearer "

abbrev pub invalid_token : HttpError
invalid_token = unauthorized "Invalid or expired token"

abbrev pub missing_token : HttpError
missing_token = unauthorized "Missing bearer token"

module _ (jwt : Jwt) where
  unfoldable pub admit : RouteAccess → Option AccessTokenClaims → Result HttpError (Option Caller)
  admit route none = err invalid_token
  admit route (some claims) =
      if fits route.principal_kind claims.kind
      then ok (
          some (record {
            principal = claims;
            organization_id = claims.org;
            is_platform_admin = false;
          }))
      else err invalid_token

  unfoldable pub with_token :
      RouteAccess → Option Text → (now : ℕ) → Result HttpError (Option Caller)
  with_token route none now = err missing_token
  with_token route (some token) now = admit route (jwt.verify now (trim token))

  abbrev pub token_of : Option Text → Option Text
  token_of none = none
  token_of (some header) = strip_prefix bearer header

  -- The caller is `none` on a public route, which reads no token.
  unfoldable pub can_activate :
      RouteAccess → (authorization : Option Text) → (now : ℕ) → Result HttpError (Option Caller)
  can_activate route authorization now =
      if route.is_public then ok none else with_token route (token_of authorization) now
