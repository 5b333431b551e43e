-- ===== src/Auth/Staff/Login.antt =====
-- What a staff login reveals, and when it succeeds.
use real_estate_webapp.Prelude.{
  ℕ, String, Bool, true, not, ◌||◌, ◌≡◌, ◌⊎◌, inl, inr, refl, none, some, arith, Result, ok, err,
  Bool-cases, Option-cases,
}
use real_estate_webapp.Http.{HttpError, internal}
use real_estate_webapp.Identity.{UserRow, OrgStatus, Db, Meta}
use real_estate_webapp.Session.{Config, Draw}
use real_estate_webapp.Auth.{Jwt, AccessTokenClaims}
use real_estate_webapp.Auth.Staff.{
  Passwords, AuthResult, staff_claims, user_is_active, org_is_active, auth_lookup_staff, login,
  login_found, login_as, invalid_login,
}

module _ (hash : ℕ → ℕ) (cfg : Config) (jwt : Jwt) (passwords : Passwords)
    (same_email : String → String → Bool) (email password : String) (meta : Meta) (family : ℕ)
    (draw : Draw) (now : ℕ) (db : Db) where
  abbrev attempt : Result HttpError AuthResult × Db
  attempt = login hash cfg jwt passwords same_email email password meta family draw now db

  -- The account may sign in: it exists, the password fits, and it and its organisation are active.
  pub record MaySignIn (u : UserRow) (org_status : OrgStatus) : Type 0 where
    pub listed : auth_lookup_staff same_email email db ≡ some (u, org_status)
    pub proven : passwords.verify u.password_hash password ≡ true
    pub user_active : user_is_active u.status ≡ true
    pub org_active : org_is_active org_status ≡ true

  abbrev staff_claims_of : UserRow → AccessTokenClaims
  staff_claims_of u = staff_claims hash cfg jwt passwords same_email u.id u.organization_id u.role

  unknown_user :
      login_found hash cfg jwt passwords same_email none password meta family draw now db
      ≡ (err invalid_login, db)
  unfolding login_found
  unknown_user = refl

  no_user :
      (r : AuthResult)
      → (login_found hash cfg jwt passwords same_email none password meta family draw now db).0
        ≡ ok r
      → ⊥
  unfolding login_found
  no_user r h = ground arith

  login_as-error :
      (u : UserRow) (e : HttpError)
      → (login_as hash cfg jwt passwords same_email u password meta family draw now db).0 ≡ err e
      → e ≡ internal
  unfolding login_as
  login_as-error u e h = ground arith

  login_as-ok :
      (u : UserRow) (r : AuthResult)
      → (login_as hash cfg jwt passwords same_email u password meta family draw now db).0 ≡ ok r
      → r.access_token ≡ jwt.sign now (staff_claims_of u)
  unfolding login_as
  login_as-ok u r h = ground arith

  found_failure :
      (u : UserRow) (o : OrgStatus) (e : HttpError)
      → auth_lookup_staff same_email email db ≡ some (u, o)
      → (login_found hash cfg jwt passwords same_email
          (some (u, o))
          password
          meta
          family
          draw
          now
          db).0
        ≡ err e
      → (login_found hash cfg jwt passwords same_email
            (some (u, o))
            password
            meta
            family
            draw
            now
            db
          ≡ (err invalid_login, db))
        ⊎ (MaySignIn u o × (e ≡ internal))
  unfolding login_found
  found_failure u o e listed h = elim (Bool-cases (passwords.verify u.password_hash password)) [
    | inr wrong ↦ inl (ground arith)
    | inl right ↦ elim (Bool-cases (not (user_is_active u.status) || not (org_is_active o))) [
      | inl idle ↦ inl (ground arith)
      | inr fit ↦ inr (
        record {
          listed = listed;
          proven = right;
          user_active = ground arith;
          org_active = ground arith;
        },
        login_as-error u e (ground arith),
      )
    ]
  ]

  -- A login that fails for want of credentials, by an unknown address, a wrong password, a disabled
  -- user or a suspended organisation, changes nothing and always gives the same answer; the only
  -- other failure is a database error of an account that may sign in.
  pub login_failure_uniform :
      (e : HttpError)
      → attempt.0 ≡ err e
      → (attempt ≡ (err invalid_login, db))
        ⊎ ((u : UserRow) × (o : OrgStatus) × MaySignIn u o × (e ≡ internal))
  unfolding login
  login_failure_uniform e h = elim (Option-cases (auth_lookup_staff same_email email db)) [
    | inl unknown ↦ inl (rw unknown unknown_user)
    | inr ((u, o), listed) ↦ elim (found_failure u o e listed (rw listed at h)) [
      | inl same ↦ inl (rw listed same)
      | inr (may, broken) ↦ inr (u, o, may, broken)
    ]
  ]

  found_success :
      (u : UserRow) (o : OrgStatus) (r : AuthResult)
      → auth_lookup_staff same_email email db ≡ some (u, o)
      → (login_found hash cfg jwt passwords same_email
          (some (u, o))
          password
          meta
          family
          draw
          now
          db).0
        ≡ ok r
      → MaySignIn u o × (r.access_token ≡ jwt.sign now (staff_claims_of u))
  unfolding login_found
  found_success u o r listed h = elim (Bool-cases (passwords.verify u.password_hash password)) [
    | inr wrong ↦ absurd (ground arith)
    | inl right ↦ elim (Bool-cases (not (user_is_active u.status) || not (org_is_active o))) [
      | inl idle ↦ absurd (ground arith)
      | inr fit ↦ (
        record {
          listed = listed;
          proven = right;
          user_active = ground arith;
          org_active = ground arith;
        },
        login_as-ok u r (ground arith),
      )
    ]
  ]

  -- A login that succeeds is of an account that may sign in, and its access token carries that
  -- user's id, organisation and role, as staff.
  pub login_success :
      (r : AuthResult)
      → attempt.0 ≡ ok r
      → (u : UserRow) × (o : OrgStatus) × MaySignIn u o
        × (r.access_token ≡ jwt.sign now (staff_claims_of u))
  unfolding login
  login_success r h = elim (Option-cases (auth_lookup_staff same_email email db)) [
    | inl unknown ↦ absurd (no_user r (rw unknown at h))
    | inr ((u, o), listed) ↦
        let (may, token) = found_success u o r listed (rw listed at h) in (u, o, may, token)
  ]
