-- ===== src/Auth/Contact/SignIn.antt =====
-- What sign-in by phone gives to whom.
use real_estate_webapp.Prelude.{
  ℕ, ◌≡◌, ◌∙◌, refl, inl, inr, Bool, true, Option, none, some, List, [], ◌∷◌, subst, some-injective,
  ◌==◌, ◌||◌, arith, find, any, Result-cases, ok, err, Text, text_eq, text_eq_refl, Bool-cases,
  find_holds,
}
use real_estate_webapp.Http.{internal}
use real_estate_webapp.Identity.{Meta}
use real_estate_webapp.Session.{Config, issue_refresh_token}
use real_estate_webapp.Auth.{Jwt}
use real_estate_webapp.Otp.{OtpConfig, OtpVerifyResult, accepted}
use real_estate_webapp.Otp as Otp
use real_estate_webapp.Contacts.{ContactRow, has_value, clashes, insert_contact}
use real_estate_webapp.Auth.Contact.{
  IdentityRow, Tables, ContactAuthResult, Draws, phone_otp, is_identity, lookup_identity,
  contact_claims, insert_identity, first_identity, issue_tokens, signed_in, first_contact,
  new_phone, resolve_phone, after_code, verify_login_otp,
}

any_of_found :
    {A : Type 0} (p q : A → Bool) (xs : List A) (x : A)
    → find q xs ≡ some x
    → p x ≡ true
    → any p xs ≡ true
unfolding find any
any_of_found p q [] x e h = absurd (ground arith)
any_of_found p q (y ∷ xs) x e h = ground (arith, any_of_found p q xs x)

module _ (hash : ℕ → ℕ) (cfg : Config) (jwt : Jwt) where
  issue_tokens-ok :
      (c : ContactRow) (meta : Meta) (d : Draws) (now : ℕ) (t : Tables) (r : ContactAuthResult)
      → (issue_tokens hash cfg jwt c meta d now t).0 ≡ ok r
      → r.access_token ≡ jwt.sign now (contact_claims r.contact.id)
  unfolding issue_tokens
  issue_tokens-ok c meta d now t r h = ground arith

  signed_in-ok :
      (o : Option (ContactRow × Tables)) (meta : Meta) (d : Draws) (now : ℕ) (t : Tables)
      (r : ContactAuthResult)
      → (signed_in hash cfg jwt o meta d now t).0 ≡ ok r
      → r.access_token ≡ jwt.sign now (contact_claims r.contact.id)
  unfolding signed_in
  signed_in-ok none meta d now t r h = absurd (ground arith)
  signed_in-ok (some (c, resolved)) meta d now t r h = issue_tokens-ok c meta d now resolved r h

  module _ (sha256 : Text → ℕ) (otp : OtpConfig) (same_email : Text → Text → Bool) where
    after_code-ok :
        (answer : OtpVerifyResult) (phone : Text) (name : Option Text) (opt_in : Option Bool)
        (meta : Meta) (d : Draws) (now : ℕ) (t : Tables) (r : ContactAuthResult)
        → (after_code hash cfg jwt sha256 otp same_email answer phone name opt_in meta d now t).0
          ≡ ok r
        → (answer ≡ accepted) × (r.access_token ≡ jwt.sign now (contact_claims r.contact.id))
    unfolding after_code
    after_code-ok accepted phone name opt_in meta d now t r h = (
      refl,
      signed_in-ok
          (resolve_phone same_email (lookup_identity phone_otp phone t) d phone name opt_in now t)
          meta d now t r h,
    )
    after_code-ok Otp.expired phone name opt_in meta d now t r h = absurd (ground arith)
    after_code-ok Otp.not_found phone name opt_in meta d now t r h = absurd (ground arith)
    after_code-ok Otp.too_many_attempts phone name opt_in meta d now t r h = absurd (ground arith)
    after_code-ok Otp.mismatch phone name opt_in meta d now t r h = absurd (ground arith)

    -- A sign-in by phone succeeds only with a code that is accepted, and its access token is a
    -- buyer's: it names the contact of the answer, and no organisation.
    pub phone_sign_in-accepted :
        (phone code : Text) (name : Option Text) (opt_in : Option Bool) (meta : Meta) (d : Draws)
        (now : ℕ) (t : Tables) (r : ContactAuthResult)
        → (verify_login_otp hash cfg jwt sha256 otp same_email phone code name opt_in meta d now
            t).0
          ≡ ok r
        → ((Otp.verify sha256 otp phone Otp.login code now t.challenges).0 ≡ accepted)
          × (r.access_token ≡ jwt.sign now (contact_claims r.contact.id))
    unfolding verify_login_otp
    phone_sign_in-accepted phone code name opt_in meta d now t r h =
        after_code-ok (Otp.verify sha256 otp phone Otp.login code now t.challenges).0 phone name
          opt_in meta d now
          (record t {
            challenges = (Otp.verify sha256 otp phone Otp.login code now t.challenges).1;
          })
          r h

    phone_clash :
        (new other : ContactRow) (phone : Text)
        → new.primary_phone ≡ some phone
        → has_value text_eq phone other.primary_phone ≡ true
        → (other.id == new.id || clashes same_email new other) ≡ true
    unfolding clashes
    phone_clash new other phone e h = elim (Bool-cases (other.id == new.id)) [
      | inl same ↦ ground (arith, same)
      | inr apart ↦ ground (arith, apart, h, e)
    ]

    insert_phone_refused :
        (new other : ContactRow) (phone : Text) (rows : List ContactRow)
        → new.primary_phone ≡ some phone
        → find (λ c. has_value text_eq phone c.primary_phone) rows ≡ some other
        → insert_contact same_email new rows ≡ none
    unfolding insert_contact
    insert_phone_refused new other phone rows e o =
        rw
          (any_of_found (λ c. c.id == new.id || clashes same_email new c)
            (λ c. has_value text_eq phone c.primary_phone) rows other o
            (phone_clash new other phone e (find_holds _ rows other o)))
          refl

    new_phone_refused :
        (phone : Text) (d : Draws) (name : Option Text) (opt_in : Option Bool) (now : ℕ)
        (t : Tables) (other : ContactRow)
        → find (λ c. has_value text_eq phone c.primary_phone) t.contacts ≡ some other
        → new_phone same_email d phone name opt_in now t ≡ none
    unfolding new_phone
    new_phone_refused phone d name opt_in now t other o =
        rw
          (
            new_phone,
            insert_phone_refused (first_contact same_email d.contact_id phone name opt_in now) other
                phone t.contacts refl o,
          )
          refl

    -- A phone number that a contact has, for which there is no identity, can never sign in: a right
    -- code is answered with an internal error, and no contact and no identity is stored.
    pub phone_without_identity_refused :
        (phone code : Text) (name : Option Text) (opt_in : Option Bool) (meta : Meta) (d : Draws)
        (now : ℕ) (t : Tables) (other : ContactRow)
        → (Otp.verify sha256 otp phone Otp.login code now t.challenges).0 ≡ accepted
        → find (is_identity phone_otp phone) t.identities ≡ none
        → find (λ c. has_value text_eq phone c.primary_phone) t.contacts ≡ some other
        → let (answer, after) =
            verify_login_otp hash cfg jwt sha256 otp same_email phone code name opt_in meta d now
              t in
          (answer ≡ err internal)
          × (after.contacts ≡ t.contacts)
          × (after.identities ≡ t.identities)
    unfolding verify_login_otp after_code lookup_identity resolve_phone signed_in
    phone_without_identity_refused phone code name opt_in meta d now t other right missing o =
        rw
          (
            right,
            lookup_identity,
            missing,
            resolve_phone,
            new_phone_refused phone d name opt_in now
                (record t {
                  challenges = (Otp.verify sha256 otp phone Otp.login code now t.challenges).1;
                })
                other o,
            signed_in,
          )
          (refl, refl, refl)

    new_phone-known :
        (phone : Text) (d : Draws) (name : Option Text) (opt_in : Option Bool) (now : ℕ)
        (t after : Tables) (c : ContactRow)
        → new_phone same_email d phone name opt_in now t ≡ some (c, after)
        → (i : IdentityRow) × (lookup_identity phone_otp phone after ≡ some (i, c))
    unfolding new_phone insert_contact insert_identity lookup_identity find
    new_phone-known phone d name opt_in now t after c h =
        let new = first_contact same_email d.contact_id phone name opt_in now in
        let i = first_identity same_email d phone now in
        elim (Bool-cases (any (λ x. x.id == new.id || clashes same_email new x) t.contacts)) [
          | inl taken ↦ absurd (ground (arith, taken))
          | inr free ↦
              elim (Bool-cases
                (any (λ x. x.id == i.id || is_identity phone_otp phone x) t.identities)) [
                  | inl taken ↦ absurd (ground (arith, taken, free))
                  | inr fresh ↦
                      let p =
                        some-injective _ _
                          (rw (new_phone, insert_contact, free, insert_identity, fresh) at h) in
                      (
                        i,
                        subst (λ x. lookup_identity phone_otp phone x.1 ≡ some (i, x.0)) p
                            (ground (arith, text_eq_refl phone)),
                      )
                ]
        ]

    issued-known :
        (c : ContactRow) (phone : Text) (meta : Meta) (d : Draws) (now : ℕ) (t : Tables)
        (r : ContactAuthResult)
        → (issue_tokens hash cfg jwt c meta d now t).0 ≡ ok r
        → (lookup_identity phone_otp phone (issue_tokens hash cfg jwt c meta d now t).1
            ≡ lookup_identity phone_otp phone t)
          × (r.contact.id ≡ c.id)
    unfolding issue_tokens lookup_identity
    issued-known c phone meta d now t r h =
        elim (Result-cases
          (issue_refresh_token hash cfg none (some c.id) meta d.family d.token now t.sessions)) [
            | inr (e, failed) ↦ absurd (ground (arith, failed))
            | inl (sessions, done) ↦ (rw (issue_tokens, done) refl, ground (arith, done))
          ]

    first_sign_in-known :
        (o : Option (ContactRow × Tables)) (phone : Text) (name : Option Text)
        (opt_in : Option Bool) (meta : Meta) (d : Draws) (now : ℕ) (t : Tables)
        (r : ContactAuthResult)
        → new_phone same_email d phone name opt_in now t ≡ o
        → (signed_in hash cfg jwt o meta d now t).0 ≡ ok r
        → (i : IdentityRow) × (c : ContactRow) × (lookup_identity phone_otp phone
              (signed_in hash cfg jwt o meta d now t).1
            ≡ some (i, c))
          × (r.contact.id ≡ c.id)
    unfolding signed_in
    first_sign_in-known none phone name opt_in meta d now t r e h = absurd (ground arith)
    first_sign_in-known (some (c, resolved)) phone name opt_in meta d now t r e h =
        let (i, found) = new_phone-known phone d name opt_in now t resolved c e in
        let (kept, same) = issued-known c phone meta d now resolved r h in
        (i, c, kept ∙ found, same)

    -- The first sign-in with a phone number creates an account that the number leads to from then
    -- on: its identity is found, with the contact that was signed in.
    pub first_sign_in_creates_account :
        (phone code : Text) (name : Option Text) (opt_in : Option Bool) (meta : Meta) (d : Draws)
        (now : ℕ) (t : Tables) (r : ContactAuthResult)
        → find (is_identity phone_otp phone) t.identities ≡ none
        → (verify_login_otp hash cfg jwt sha256 otp same_email phone code name opt_in meta d now
            t).0
          ≡ ok r
        → (i : IdentityRow) × (c : ContactRow) × (lookup_identity phone_otp phone
              (verify_login_otp hash cfg jwt sha256 otp same_email phone code name opt_in meta d now
                t).1
            ≡ some (i, c))
          × (r.contact.id ≡ c.id)
    unfolding verify_login_otp after_code lookup_identity resolve_phone
    first_sign_in_creates_account phone code name opt_in meta d now t r missing h =
        let checked = record t {
          challenges = (Otp.verify sha256 otp phone Otp.login code now t.challenges).1;
        } in
        let right = (phone_sign_in-accepted phone code name opt_in meta d now t r h).0 in
        rw (right, missing)
          (first_sign_in-known (new_phone same_email d phone name opt_in now checked) phone name
            opt_in meta d now checked r refl (rw (right, missing) at h))
