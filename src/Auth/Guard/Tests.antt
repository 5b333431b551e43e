-- ===== src/Auth/Guard/Tests.antt =====
-- The guard on requests with a token that was signed.
use real_estate_webapp.Prelude.{◌≡◌, none, true, ◌⊎◌, Option, refl, false, some, ◌++◌, arith}
use real_estate_webapp.Identity.{UserRole, PrincipalKind}
use real_estate_webapp.Auth.{AccessTokenClaims, role}
use real_estate_webapp.Auth.Guard.{RouteAccess, Caller, bearer}
use real_estate_webapp.Auth.Guard.Access.{IsKnown, can_activate-IsKnown, signed_token_admitted}
use real_estate_webapp.Auth.Tests.{plain_jwt}

abbrev staff_only : RouteAccess
staff_only = record { is_public = false; principal_kind = some PrincipalKind.staff }

abbrev claims : AccessTokenClaims
claims = record { sub = 1; org = some 10; role = role UserRole.agent; kind = PrincipalKind.staff }

abbrev caller : Caller
caller = record { principal = claims; organization_id = some 10; is_platform_admin = false }

can_activate-IsKnown_example :
    ((staff_only.is_public ≡ true) × (◌≡◌ {A = Option Caller} (some caller) none))
    ⊎ ((staff_only.is_public ≡ false)
        × ((who : Caller) × (◌≡◌ {A = Option Caller} (some caller) (some who))
            × IsKnown plain_jwt staff_only (some (bearer ++ plain_jwt.sign 1000 claims)) 2000 who))
unfolding plain_jwt
can_activate-IsKnown_example =
    can_activate-IsKnown plain_jwt staff_only (some (bearer ++ plain_jwt.sign 1000 claims)) 2000
      (some caller)
      (signed_token_admitted plain_jwt staff_only 1000 2000 claims refl refl (omega arith))
