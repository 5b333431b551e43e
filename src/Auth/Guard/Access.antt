-- ===== src/Auth/Guard/Access.antt =====
-- Which requests pass the guard, and as whom.
use real_estate_webapp.Prelude.{
  ◌⊎◌, ℕ, ◌+◌, ◌<◌, ◌≡◌, ◌∙◌, ap, sym, refl, inl, inr, true, false, Option, none, some,
  some-injective, [], ◌∷◌, ◌++◌, arith, ok, Text, trim, strip_prefix, strip_prefix-append,
  Bool-cases, Option-cases, ◌==◌, ==_iff,
}
use real_estate_webapp.Auth.{AccessTokenClaims, Jwt}
use real_estate_webapp.Auth.Guard.{
  RouteAccess, Caller, fits, bearer, admit, with_token, token_of, can_activate,
}

strip_prefix-inverse : (p s rest : Text) → strip_prefix p s ≡ some rest → s ≡ p ++ rest
unfolding strip_prefix
strip_prefix-inverse [] s rest h = some-injective _ _ h
strip_prefix-inverse (c ∷ p) [] rest h = absurd (ground arith)
strip_prefix-inverse (c ∷ p) (d ∷ s) rest h = elim (Bool-cases (c == d)) [
  | inr apart ↦ absurd (ground (arith, apart))
  | inl same ↦
      ap (λ x. x ∷ s) (sym ((==_iff c d).0 same))
      ∙ ap (λ r. c ∷ r) (strip_prefix-inverse p s rest (rw same at h))
]

module _ (jwt : Jwt) where
  -- A caller is known by a token that was verified, as the route asks for, and under the tenant of
  -- that token's claims alone.
  pub record IsKnown (route : RouteAccess) (authorization : Option Text) (now : ℕ) (who : Caller)
      : Type 0 where
    pub token : Text
    pub presented : authorization ≡ some (bearer ++ token)
    pub verified : jwt.verify now (trim token) ≡ some who.principal
    pub right_kind : fits route.principal_kind who.principal.kind ≡ true
    pub own_tenant : who.organization_id ≡ who.principal.org
    pub no_admin : who.is_platform_admin ≡ false

  admit-ok :
      (route : RouteAccess) (c : Option AccessTokenClaims) (who : Caller)
      → admit jwt route c ≡ ok (some who)
      → (c ≡ some who.principal)
        × (fits route.principal_kind who.principal.kind ≡ true)
        × (who.organization_id ≡ who.principal.org)
        × (who.is_platform_admin ≡ false)
  unfolding admit
  admit-ok route none who h = absurd (ground arith)
  admit-ok route (some claims) who h = ground arith

  no_token :
      (route : RouteAccess) (who : Caller) (now : ℕ)
      → with_token jwt route none now ≡ ok (some who)
      → ⊥
  unfolding with_token
  no_token route who now h = ground arith

  with_token-IsKnown :
      (route : RouteAccess) (authorization : Option Text) (now : ℕ) (who : Caller) (token : Text)
      → authorization ≡ some (bearer ++ token)
      → with_token jwt route (some token) now ≡ ok (some who)
      → IsKnown route authorization now who
  unfolding with_token
  with_token-IsKnown route authorization now who token shown h =
      let (verified, right_kind, own_tenant, no_admin) =
        admit-ok route (jwt.verify now (trim token)) who h in
      record {
        token = token;
        presented = shown;
        verified = verified;
        right_kind = right_kind;
        own_tenant = own_tenant;
        no_admin = no_admin;
      }

  header-IsKnown :
      (route : RouteAccess) (authorization : Option Text) (now : ℕ) (who : Caller)
      → with_token jwt route (token_of jwt authorization) now ≡ ok (some who)
      → IsKnown route authorization now who
  unfolding with_token
  header-IsKnown route none now who h = absurd (ground arith)
  header-IsKnown route (some header) now who h = elim (Option-cases (strip_prefix bearer header)) [
    | inl missing ↦ absurd (no_token route who now (rw missing at h))
    | inr (token, e) ↦
        with_token-IsKnown route (some header) now who token
          (ap (λ t. some t) (strip_prefix-inverse bearer header token e)) (rw e at h)
  ]

  always_someone :
      (route : RouteAccess) (c : Option AccessTokenClaims) → admit jwt route c ≡ ok none → ⊥
  unfolding admit
  always_someone route none h = absurd (ground arith)
  always_someone route (some claims) h = absurd (ground arith)

  no_anonymous :
      (route : RouteAccess) (token : Option Text) (now : ℕ)
      → with_token jwt route token now ≡ ok none
      → ⊥
  unfolding with_token
  no_anonymous route none now h = ground arith
  no_anonymous route (some token) now h = always_someone route (jwt.verify now (trim token)) h

  -- Only a public route lets a request pass without a caller, and it reads no token. Whoever passes the
  -- guard of any other route presented a verified token of the kind that the route asks for, and acts
  -- for the organisation in that token's claims and never as platform admin.
  pub can_activate-IsKnown :
      (route : RouteAccess) (authorization : Option Text) (now : ℕ) (passed : Option Caller)
      → can_activate jwt route authorization now ≡ ok passed
      → ((route.is_public ≡ true) × (passed ≡ none))
        ⊎ ((route.is_public ≡ false)
            × ((who : Caller) × (passed ≡ some who) × IsKnown route authorization now who))
  unfolding can_activate with_token admit
  can_activate-IsKnown route authorization now passed h = elim (Bool-cases route.is_public) [
    | inl open_route ↦ inl (open_route, ground (arith, rw open_route at h))
    | inr closed ↦ inr (
      closed,
      elim (Option-cases passed) [
        | inl nobody ↦
            absurd (no_anonymous route (token_of jwt authorization) now (rw (closed, nobody) at h))
        | inr (who, caller) ↦
            (who, caller, header-IsKnown route authorization now who (rw (closed, caller) at h))
      ],
    )
  ]

  -- A token that was signed passes any route that asks for its kind until it runs out, and the caller
  -- has the claims that were signed.
  pub signed_token_admitted :
      (route : RouteAccess) (issued now : ℕ) (c : AccessTokenClaims)
      → route.is_public ≡ false
      → fits route.principal_kind c.kind ≡ true
      → now < issued + jwt.ttl_ms
      → can_activate jwt route (some (bearer ++ jwt.sign issued c)) now
        ≡ ok (some (record { principal = c; organization_id = c.org; is_platform_admin = false }))
  unfolding can_activate with_token admit
  signed_token_admitted route issued now c closed kind live =
      rw
        (
          closed,
          strip_prefix-append bearer (jwt.sign issued c),
          jwt.trim-sign issued c,
          jwt.verify-sign issued now c live,
          kind,
        )
        refl
