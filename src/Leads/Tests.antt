-- ===== src/Leads/Tests.antt =====
-- Enquiries over a small set of tables, and the theorems about them there.
use real_estate_webapp.Prelude.{
  ◌++◌, ◌⊎◌, ◌==◌, List, Permᴰ, map, length, take, rows_where, sort_by, insert_by, ℕ, ◌≡◌, refl,
  true, false, Option, none, some, [], ◌∷◌, arith, any, find, update_where, get_elem?, Text, codes,
  text_eq, truthy, trim, trim_start, is_space,
}
use real_estate_webapp.Contacts.{
  clashes, update_contact, insert_contact, without_phone, with_phone, find_or_create_contact,
}
use real_estate_webapp.Messaging.{
  OutboundTemplateMessage, OutboundMessageProvider, OutboundConfig, outbound_send_error,
}
use real_estate_webapp.Leads.{
  CreateLeadRequest, tour_request, contact, kind_points, is_sentence, has_budget, raw_score, score,
}
use real_estate_webapp.Leads.Intake.{
  contacted, LeadRow, Tables, PendingAcknowledgement, find_host_organization, resolve_listing_owner,
  owner_for, new_lead, pending_for, file_lead, routed, create,
}
use real_estate_webapp.Leads.Followup.{
  SpeedToLeadConfig, reason_to_skip, record_activity, outcome_of, acknowledge,
  dispatch_acknowledgement, first_name,
}
use real_estate_webapp.Leads.Followup.Consent.{message_with_consent}
use real_estate_webapp.Leads.Pipeline.{Patch, Principal, update_lead, after_update, update_status}
use real_estate_webapp.Leads.Pipeline.Tenancy.{other_tenant_kept}
use real_estate_webapp.Leads.Pipeline.Queue.{
  with_contact, urgent, find_for_org, follow_up, list_for_org,
}
use real_estate_webapp.Leads.Pipeline.Queue.Urgency.{IsInLine, list_for_org-urgent}

service : Unit {0}
unfolding find_or_create_contact with_phone without_phone update_contact insert_contact clashes any
    find update_where text_eq kind_points is_sentence has_budget raw_score score trim trim_start
    is_space find_host_organization resolve_listing_owner owner_for file_lead routed create
    reason_to_skip record_activity outcome_of acknowledge dispatch_acknowledgement first_name
    update_lead after_update update_status
service = tt

-- A uuid is a text of one code unit here.
abbrev parse_uuid : Text → Option ℕ
parse_uuid (n ∷ []) = some n
parse_uuid _ = none

abbrev sparse : CreateLeadRequest
sparse = record {
  kind = contact;
  name = codes "Amit Kumar";
  email = codes "a@b.c";
  phone = none;
  message = none;
  whatsapp_opt_in = some true;
  listing_key = none;
  preferred_date = some (codes "2025-01-01");
  property_address = none;
  timeframe = none;
  requirement = none;
  source = none;
}

abbrev rich : CreateLeadRequest
rich = record sparse {
  kind = tour_request;
  phone = some (codes "+911");
  listing_key = some (77 ∷ []);
}

abbrev tables : Tables
tables = record {
  contacts =
      record {
        id = 1;
        full_name = none;
        primary_phone = some (codes "+911");
        primary_email = none;
        phone_verified_at = none;
        whatsapp_opt_in = false;
      }
      ∷ record {
        id = 2;
        full_name = none;
        primary_phone = none;
        primary_email = some (codes "x@y.z");
        phone_verified_at = none;
        whatsapp_opt_in = false;
      }
      ∷ [];
  leads = [];
  activities = [];
  listings = record { id = 77; organization_id = 20 } ∷ [];
  organizations = record { id = 10; name = codes "Host"; is_host = true } ∷ [];
  staff =
      record { id = 100; organization_id = 20 } ∷ record { id = 200; organization_id = 30 } ∷ [];
}

abbrev hostless : Tables
hostless = record tables { organizations = [] }

abbrev speed : SpeedToLeadConfig
speed = record { enabled = true; template = "enquiry_received"; template_language = "en" }

abbrev outbound : OutboundConfig
outbound = record { max_attempts = 2; retry_base_ms = 400 }

abbrev broken : OutboundMessageProvider
broken = record {
  name = "cloud-api";
  can_deliver = true;
  send = λ n message. outbound_send_error "timeout" true;
}

abbrev asked : PendingAcknowledgement
asked = pending_for parse_uuid text_eq rich 500 20

abbrev stored : Tables
stored = record tables { leads = new_lead parse_uuid text_eq rich 20 (some 77) 1 500 ∷ [] }

abbrev greeting : OutboundTemplateMessage
greeting = record {
  to_phone_e164 = codes "+911";
  template = "enquiry_received";
  variables = codes "Amit" ∷ codes "your property consultant" ∷ codes "your enquiry" ∷ [];
  language_code = "en";
}

message_with_consent_example :
    (true ≡ true)
    × (rich.whatsapp_opt_in ≡ some true)
    × (truthy rich.phone ≡ true)
    × (rich.phone ≡ some (codes "+911"))
unfolding service
message_with_consent_example =
    message_with_consent speed outbound broken parse_uuid text_eq rich 3 500 tables stored asked
      greeting refl refl

abbrev patch : Patch
patch = record {
  status = some contacted;
  assigned_user_id = some (some 200);
  note = some (codes "called");
}

abbrev rival : Principal
rival = record { organization_id = 30; user_id = 200 }

abbrev agent : Principal
agent = record { organization_id = 20; user_id = 100 }

other_tenant_kept_example :
    get_elem? (update_status 500 patch rival stored).tables.leads 0
    ≡ some (new_lead parse_uuid text_eq rich 20 (some 77) 1 500)
unfolding service
other_tenant_kept_example =
    other_tenant_kept 500 0 patch rival stored (new_lead parse_uuid text_eq rich 20 (some 77) 1 500)
      refl (omega arith)

-- A contact enquiry, a tour request, and another tour request that came later.
abbrev asking : LeadRow
asking = new_lead parse_uuid text_eq sparse 20 none 1 501

abbrev touring : LeadRow
touring = new_lead parse_uuid text_eq rich 20 (some 77) 1 502

abbrev touring_later : LeadRow
touring_later = record touring { id = 503 }

abbrev busy : Tables
busy = record tables {
  leads = asking ∷ touring ∷ record touring { id = 504; organization_id = 30 } ∷ touring_later ∷ [];
}

in_line : map (λ x. x.id) (list_for_org (λ n. n) 20 busy) ≡ 503 ∷ 502 ∷ 501 ∷ []
unfolding service list_for_org find_for_org urgent sort_by insert_by take rows_where
in_line = refl

list_for_org-urgent_example :
    (shown : List LeadRow) × (hidden : List LeadRow) × (list_for_org (λ n. n) 20 busy
      ≡ map (λ l. follow_up (λ n. n) (with_contact busy l)) shown)
    × Permᴰ (shown ++ hidden) (rows_where (λ l. l.organization_id == 20) busy.leads)
    × IsInLine (λ n. n) (shown ++ hidden)
    × ((length shown ≡ 100) ⊎ (hidden ≡ []))
list_for_org-urgent_example = list_for_org-urgent (λ n. n) 20 busy
