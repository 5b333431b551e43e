-- ===== src/Contacts/Tests.antt =====
-- Forms against a small table of contacts, and the theorems about them there.
use real_estate_webapp.Prelude.{
  refl, true, false, none, some, [], ◌∷◌, codes, text_eq, any, find, update_where,
}
use real_estate_webapp.Contacts.{
  ContactRow, ContactInput, clashes, update_contact, insert_contact, without_phone, with_phone,
  backfill_email, find_or_create_contact,
}
use real_estate_webapp.Contacts.Backfill.{Kept, find_or_create-Kept}

service : Unit {0}
unfolding find_or_create_contact with_phone without_phone update_contact insert_contact clashes any
    find update_where text_eq
service = tt

abbrev phone_only : ContactRow
phone_only = record {
  id = 1;
  full_name = none;
  primary_phone = some (codes "+911");
  primary_email = none;
  phone_verified_at = none;
  whatsapp_opt_in = false;
}

abbrev mail_only : ContactRow
mail_only = record phone_only { id = 2; primary_phone = none; primary_email = some (codes "a@b.c") }

abbrev form : ContactInput
form = record {
  full_name = codes "Amit";
  email = some (codes "x@y.z");
  phone = some (codes "+911");
  whatsapp_opt_in = some true;
}

find_or_create-Kept_example :
    Kept text_eq 1 phone_only (backfill_email text_eq form phone_only ∷ mail_only ∷ [])
unfolding service
find_or_create-Kept_example =
    find_or_create-Kept text_eq form 3 1 1 (phone_only ∷ mail_only ∷ [])
      (backfill_email text_eq form phone_only ∷ mail_only ∷ []) phone_only refl refl
