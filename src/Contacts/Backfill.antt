-- ===== src/Contacts/Backfill.antt =====
-- What an anonymous form can and cannot do to the contacts that are there.
use real_estate_webapp.Prelude.{
  ℕ, ◌≡◌, refl, subst, Bool, true, false, ◌||◌, Option, none, some, List, [], ◌∷◌, ◌==◌,
  if◌then◌else◌, or_else, arith, find, any, Text, text_eq, find-update_where, any-update_where,
  find_holds, find_of_any-false,
}
use real_estate_webapp.Contacts.{
  ContactRow, ContactInput, has_value, clashes, update_contact, insert_contact, backfill_email,
  backfill_phone, new_contact, search, by_phone, by_email, stored, without_phone, with_phone,
  find_or_create_contact,
}

-- A later version of a contact: nothing that was known has changed, and consent was not withdrawn.
pub record Extends (before after : ContactRow) : Type 0 where
  pub same_id : after.id ≡ before.id
  pub name : or_else before.full_name after.full_name ≡ after.full_name
  pub phone : or_else before.primary_phone after.primary_phone ≡ after.primary_phone
  pub email : or_else before.primary_email after.primary_email ≡ after.primary_email
  pub verified : after.phone_verified_at ≡ before.phone_verified_at
  pub consent : (before.whatsapp_opt_in || after.whatsapp_opt_in) ≡ after.whatsapp_opt_in

Extends-refl : (c : ContactRow) → Extends c c
Extends-refl c = ground arith

module _ (same_email : Text → Text → Bool) where
  email-Extends :
      (input : ContactInput) (c : ContactRow) → Extends c (backfill_email same_email input c)
  email-Extends input c = ground arith

  phone-Extends :
      (input : ContactInput) (c : ContactRow) → Extends c (backfill_phone same_email input c)
  phone-Extends input c = ground arith

  -- A row that was there is there, and only extended.
  pub record Kept (i : ℕ) (c : ContactRow) (after : List ContactRow) : Type 0 where
    pub later : ContactRow
    pub found : find (λ r. r.id == i) after ≡ some later
    pub extends : Extends c later

  update-Kept :
      (f : ContactRow → ContactRow) (c0 : ContactRow) (rows after : List ContactRow) (i : ℕ)
      (c : ContactRow)
      → ((r : ContactRow) → (f r).id ≡ r.id)
      → ((r : ContactRow) → Extends r (f r))
      → update_contact same_email f c0 rows ≡ some after
      → find (λ r. r.id == i) rows ≡ some c
      → Kept i c after
  unfolding update_contact
  update-Kept f c0 rows after i c keeps grows e found = record {
    later = if c.id == c0.id then f c else c;
    found = ground (
      arith,
      find-update_where (λ r. r.id == i) (λ r. r.id == c0.id) f (λ r. rw (keeps r) refl) rows c
          found,
    );
    extends = ite_Extends (c.id == c0.id) c (f c) (grows c);
  }
    where
      ite_Extends : (b : Bool) (x y : ContactRow) → Extends x y → Extends x (if b then y else x)
      ite_Extends true x y h = h
      ite_Extends false x y h = Extends-refl x

  insert-Kept :
      (new : ContactRow) (rows after : List ContactRow) (i : ℕ) (c : ContactRow)
      → insert_contact same_email new rows ≡ some after
      → find (λ r. r.id == i) rows ≡ some c
      → Kept i c after
  unfolding insert_contact find
  insert-Kept new rows after i c e found = record {
    later = c;
    found = ground (arith, apart, found, find_holds (λ r. r.id == i) rows c found);
    extends = Extends-refl c;
  }
    where
      apart :
          any (λ x. x.id == new.id || clashes same_email new x) rows ≡ false
          → (c.id == new.id || clashes same_email new c) ≡ false
      apart n =
          find_of_any-false (λ x. x.id == new.id || clashes same_email new x) (λ r. r.id == i) rows
            c n found

  stored-eq :
      (id j : ℕ) (o : Option (List ContactRow)) (after : List ContactRow)
      → stored same_email id o ≡ some (j, after)
      → o ≡ some after
  stored-eq id j none after e = absurd (ground arith)
  stored-eq id j (some rows) after e = ground arith

  without_phone-Kept :
      (o : Option ContactRow) (input : ContactInput) (id j i : ℕ) (rows after : List ContactRow)
      (c : ContactRow)
      → without_phone same_email o input id rows ≡ some (j, after)
      → find (λ r. r.id == i) rows ≡ some c
      → Kept i c after
  unfolding without_phone
  without_phone-Kept (some c0) input id j i rows after c e found =
      update-Kept (backfill_phone same_email input) c0 rows after i c (λ r. refl)
        (phone-Extends input) (stored-eq c0.id j _ after e) found
  without_phone-Kept none input id j i rows after c e found =
      insert-Kept (new_contact same_email input id) rows after i c (stored-eq id j _ after e) found

  with_phone-Kept :
      (o : Option ContactRow) (input : ContactInput) (id j i : ℕ) (rows after : List ContactRow)
      (c : ContactRow)
      → with_phone same_email o input id rows ≡ some (j, after)
      → find (λ r. r.id == i) rows ≡ some c
      → Kept i c after
  unfolding with_phone
  with_phone-Kept (some c0) input id j i rows after c e found =
      update-Kept (backfill_email same_email input) c0 rows after i c (λ r. refl)
        (email-Extends input) (stored-eq c0.id j _ after e) found
  with_phone-Kept none input id j i rows after c e found =
      without_phone-Kept (by_email same_email input rows) input id j i rows after c e found

  -- No form changes or clears a name, a phone number or an email that a contact already has, verifies
  -- a phone number, or withdraws a consent; and every contact is still there afterwards.
  pub find_or_create-Kept :
      (input : ContactInput) (id j i : ℕ) (rows after : List ContactRow) (c : ContactRow)
      → find_or_create_contact same_email input id rows ≡ some (j, after)
      → find (λ r. r.id == i) rows ≡ some c
      → Kept i c after
  unfolding find_or_create_contact
  find_or_create-Kept input id j i rows after c e found =
      with_phone-Kept (by_phone same_email input rows) input id j i rows after c e found

  any-clash :
      (new other : ContactRow) (rows : List ContactRow) (q : ContactRow → Bool)
      → find q rows ≡ some other
      → clashes same_email new other ≡ true
      → any (clashes same_email new) rows ≡ true
  unfolding find any
  any-clash new other [] q e h = absurd (ground arith)
  any-clash new other (x ∷ rows) q e h = ground (arith, any-clash new other rows q)

  any_id_of_find :
      (q : ContactRow → Bool) (rows : List ContactRow) (c : ContactRow)
      → find q rows ≡ some c
      → any (λ r. r.id == c.id) rows ≡ true
  unfolding find any
  any_id_of_find q [] c e = absurd (ground arith)
  any_id_of_find q (x ∷ rows) c e = ground (arith, any_id_of_find q rows c)

  update-known :
      (f : ContactRow → ContactRow) (q : ContactRow → Bool) (c : ContactRow)
      (rows after : List ContactRow)
      → ((r : ContactRow) → (f r).id ≡ r.id)
      → find q rows ≡ some c
      → update_contact same_email f c rows ≡ some after
      → any (λ r. r.id == c.id) after ≡ true
  unfolding update_contact
  update-known f q c rows after keeps found e = ground (
    arith,
    any_id_of_find q rows c found,
    any-update_where (λ r. r.id == c.id) (λ r. r.id == c.id) f (λ r. rw (keeps r) refl) rows,
  )

  insert-known :
      (new : ContactRow) (rows after : List ContactRow)
      → insert_contact same_email new rows ≡ some after
      → any (λ r. r.id == new.id) after ≡ true
  unfolding insert_contact any
  insert-known new rows after e = ground arith

  stored-id :
      (id j : ℕ) (o : Option (List ContactRow)) (after : List ContactRow)
      → stored same_email id o ≡ some (j, after)
      → id ≡ j
  stored-id id j none after e = absurd (ground arith)
  stored-id id j (some rows) after e = ground arith

  search_finds :
      (same : Text → Text → Bool) (column : ContactRow → Option Text) (key : Option Text)
      (rows : List ContactRow) (c : ContactRow)
      → search same_email same column key rows ≡ some c
      → (q : ContactRow → Bool) × (find q rows ≡ some c)
  search_finds same column none rows c e = absurd (ground arith)
  search_finds same column (some []) rows c e = absurd (ground arith)
  search_finds same column (some (x ∷ t)) rows c e = (λ r. has_value same (x ∷ t) (column r), e)

  without_phone-known :
      (o : Option ContactRow) (input : ContactInput) (id j : ℕ) (rows after : List ContactRow)
      → by_email same_email input rows ≡ o
      → without_phone same_email o input id rows ≡ some (j, after)
      → any (λ r. r.id == j) after ≡ true
  unfolding without_phone
  without_phone-known (some c) input id j rows after b e =
      let (q, found) = search_finds same_email (λ r. r.primary_email) input.email rows c b in
      subst (λ x. any (λ r. r.id == x) after ≡ true) (stored-id c.id j _ after e)
        (update-known (backfill_phone same_email input) q c rows after (λ r. refl) found
          (stored-eq c.id j _ after e))
  without_phone-known none input id j rows after b e =
      subst (λ x. any (λ r. r.id == x) after ≡ true) (stored-id id j _ after e)
        (insert-known (new_contact same_email input id) rows after (stored-eq id j _ after e))

  with_phone-known :
      (o : Option ContactRow) (input : ContactInput) (id j : ℕ) (rows after : List ContactRow)
      → by_phone same_email input rows ≡ o
      → with_phone same_email o input id rows ≡ some (j, after)
      → any (λ r. r.id == j) after ≡ true
  unfolding with_phone
  with_phone-known (some c) input id j rows after b e =
      let (q, found) = search_finds text_eq (λ r. r.primary_phone) input.phone rows c b in
      subst (λ x. any (λ r. r.id == x) after ≡ true) (stored-id c.id j _ after e)
        (update-known (backfill_email same_email input) q c rows after (λ r. refl) found
          (stored-eq c.id j _ after e))
  with_phone-known none input id j rows after b e =
      without_phone-known (by_email same_email input rows) input id j rows after refl e

  -- The contact that is returned is in the table.
  pub find_or_create-known :
      (input : ContactInput) (id j : ℕ) (rows after : List ContactRow)
      → find_or_create_contact same_email input id rows ≡ some (j, after)
      → any (λ r. r.id == j) after ≡ true
  unfolding find_or_create_contact
  find_or_create-known input id j rows after e =
      with_phone-known (by_phone same_email input rows) input id j rows after refl e
