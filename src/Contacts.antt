-- ===== src/Contacts.antt =====
-- The table `contact` of migration 0003, with its two partial unique indexes, and
-- `findOrCreateContact` of apps/api/src/leads/repositories/lead.repository.ts.
--
-- `same_email` is the equality of the column type citext.
pub mod Backfill
mod Tests
use real_estate_webapp.Prelude.{
  ℕ, Bool, true, false, not, ◌&&◌, ◌||◌, Option, none, some, List, [], ◌∷◌, ◌==◌, if◌then◌else◌,
  or_else, get_or, find, any, update_where, Result, ok, err, Text, text_eq, truthy,
}

pub record ContactRow : Type 0 where
  pub id : ℕ
  pub full_name : Option Text
  pub primary_phone : Option Text
  pub primary_email : Option Text
  pub phone_verified_at : Option ℕ
  pub whatsapp_opt_in : Bool

-- What a form says about the person.
pub record ContactInput : Type 0 where
  pub full_name : Text
  pub email : Option Text
  pub phone : Option Text
  pub whatsapp_opt_in : Option Bool

abbrev pub has_value : (Text → Text → Bool) → Text → Option Text → Bool
has_value same wanted none = false
has_value same wanted (some t) = same t wanted

abbrev pub shares : (Text → Text → Bool) → Option Text → Option Text → Bool
shares same none t = false
shares same (some s) t = has_value same s t

module _ (same_email : Text → Text → Bool) where
  -- Another row with the same id, phone or email.
  unfoldable pub clashes : ContactRow → ContactRow → Bool
  clashes new old =
      not (old.id == new.id)
      && (shares text_eq new.primary_phone old.primary_phone
          || shares same_email new.primary_email old.primary_email)

  -- `UPDATE contact SET … WHERE id = …`; `none` is a violated unique index.
  unfoldable pub update_contact :
      (ContactRow → ContactRow) → ContactRow → List ContactRow → Option (List ContactRow)
  unfolding clashes
  update_contact f c rows =
      if any (clashes (f c)) rows then none else some (update_where (λ r. r.id == c.id) f rows)

  -- `INSERT INTO contact`, under an id that no row has.
  unfoldable pub insert_contact : ContactRow → List ContactRow → Option (List ContactRow)
  insert_contact new rows =
      if any (λ c. c.id == new.id || clashes new c) rows then none else some (new ∷ rows)

  abbrev pub backfill_email : ContactInput → ContactRow → ContactRow
  backfill_email input c = record c {
    primary_email = or_else c.primary_email input.email;
    full_name = or_else c.full_name (some input.full_name);
    whatsapp_opt_in = c.whatsapp_opt_in || get_or input.whatsapp_opt_in false;
  }

  abbrev pub backfill_phone : ContactInput → ContactRow → ContactRow
  backfill_phone input c = record c {
    primary_phone = or_else c.primary_phone input.phone;
    full_name = or_else c.full_name (some input.full_name);
    whatsapp_opt_in = c.whatsapp_opt_in || get_or input.whatsapp_opt_in false;
  }

  abbrev pub new_contact : ContactInput → ℕ → ContactRow
  new_contact input id = record {
    id = id;
    full_name = some input.full_name;
    primary_phone = input.phone;
    primary_email = input.email;
    phone_verified_at = none;
    whatsapp_opt_in = get_or input.whatsapp_opt_in false;
  }

  -- `SELECT … WHERE column = value`, made only for a value that is not empty.
  abbrev pub search :
      (Text → Text → Bool)
      → (ContactRow → Option Text)
      → Option Text
      → List ContactRow
      → Option ContactRow
  search same column none rows = none
  search same column (some []) rows = none
  search same column (some (c ∷ t)) rows = find (λ r. has_value same (c ∷ t) (column r)) rows

  abbrev pub by_phone : ContactInput → List ContactRow → Option ContactRow
  by_phone input rows = search text_eq (λ r. r.primary_phone) input.phone rows

  abbrev pub by_email : ContactInput → List ContactRow → Option ContactRow
  by_email input rows = search same_email (λ r. r.primary_email) input.email rows

  abbrev pub stored : ℕ → Option (List ContactRow) → Option (ℕ × List ContactRow)
  stored id none = none
  stored id (some rows) = some (id, rows)

  unfoldable pub without_phone :
      Option ContactRow → ContactInput → (id : ℕ) → List ContactRow → Option (ℕ × List ContactRow)
  unfolding update_contact insert_contact
  without_phone (some c) input id rows = stored c.id (update_contact (backfill_phone input) c rows)
  without_phone none input id rows = stored id (insert_contact (new_contact input id) rows)

  unfoldable pub with_phone :
      Option ContactRow → ContactInput → (id : ℕ) → List ContactRow → Option (ℕ × List ContactRow)
  unfolding update_contact without_phone
  with_phone (some c) input id rows = stored c.id (update_contact (backfill_email input) c rows)
  with_phone none input id rows = without_phone (by_email input rows) input id rows

  -- The contact's id and the table after it; `none` where a unique index refuses the write.
  unfoldable pub find_or_create_contact :
      ContactInput → (id : ℕ) → List ContactRow → Option (ℕ × List ContactRow)
  unfolding with_phone
  find_or_create_contact input id rows = with_phone (by_phone input rows) input id rows
