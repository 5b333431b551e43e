-- ===== src/Leads/Intake.antt =====
-- `LeadService.create` of apps/api/src/leads/services/lead.service.ts with the queries of
-- lead.repository.ts that it makes.
--
-- `parse_uuid` is PostgreSQL's reading of a text as a uuid, which fails on any other text; the ids
-- that rows get are drawn by the caller. A lead's jsonb columns are kept as the values they encode.
use real_estate_webapp.Prelude.{
  ℕ, Bool, false, Option, none, some, List, [], ◌∷◌, ◌==◌, if◌then◌else◌, get_or, find, any, Result,
  ok, err, Text,
}
use real_estate_webapp.Http.{HttpError, internal, unavailable}
use real_estate_webapp.Messaging.{OutboundAttempt}
use real_estate_webapp.Contacts.{ContactRow, ContactInput, find_or_create_contact}
use real_estate_webapp.Leads.{LeadKind, CreateLeadRequest, Requirement, LeadSource, score}

pub data LeadStatus : Type 0 where
  new contacted qualified viewing negotiating won lost : LeadStatus

pub data LeadChannel : Type 0 where
  web whatsapp call walk_in referral : LeadChannel

pub record LeadRequirement : Type 0 where
  pub requirement : Option Requirement
  pub preferred_date : Option Text
  pub property_address : Option Text
  pub timeframe : Option Text

pub record LeadRow : Type 0 where
  pub id : ℕ
  pub organization_id : ℕ
  pub assigned_user_id : Option ℕ
  pub contact_id : ℕ
  pub listing_id : Option ℕ
  pub kind : LeadKind
  pub channel : LeadChannel
  pub status : LeadStatus
  pub score : ℕ
  pub message : Option Text
  pub requirement : LeadRequirement
  pub source : Option LeadSource

pub data ActivityType : Type 0 where
  status_change note whatsapp_message : ActivityType

-- `SkipReason` and the outcomes of speed-to-lead.service.ts, which its activity entries record.
pub data SkipReason : Type 0 where
  disabled no_phone no_consent : SkipReason

pub data Outcome : Type 0 where
  skipped : SkipReason → Outcome
  sent simulated failed : OutboundAttempt → Outcome

pub record ActivityRow : Type 0 where
  pub lead_id : ℕ
  pub actor_user_id : Option ℕ
  pub type : ActivityType
  pub body : Option Text
  pub metadata : Option Outcome

pub record ListingRef : Type 0 where
  pub id : ℕ
  pub organization_id : ℕ

pub record OrgRef : Type 0 where
  pub id : ℕ
  pub name : Text
  pub is_host : Bool

pub record StaffRef : Type 0 where
  pub id : ℕ
  pub organization_id : ℕ

pub record Tables : Type 0 where
  pub contacts : List ContactRow
  pub leads : List LeadRow
  pub activities : List ActivityRow
  pub listings : List ListingRef
  pub organizations : List OrgRef
  pub staff : List StaffRef

-- What `dispatchAcknowledgement` is started with; it runs after the response.
pub record PendingAcknowledgement : Type 0 where
  pub lead_id : ℕ
  pub organization_id : ℕ
  pub contact_name : Text
  pub phone : Option Text
  pub whatsapp_opt_in : Bool
  pub listing_label : Option Text

pub record Intake : Type 0 where
  pub answer : Result HttpError ℕ
  pub tables : Tables
  pub pending : Option PendingAcknowledgement

abbrev pub owner_of : Option ListingRef → Option (ℕ × ℕ)
owner_of none = none
owner_of (some l) = some (l.organization_id, l.id)

abbrev pub org_id_of : Option OrgRef → Option ℕ
org_id_of none = none
org_id_of (some o) = some o.id

-- `SELECT id FROM organization WHERE is_host LIMIT 1`
unfoldable pub find_host_organization : Tables → Option ℕ
find_host_organization t = org_id_of (find (λ o. o.is_host) t.organizations)

-- The organisation and the listing that a lead is filed under, where the routing finds them.
pub record Route : Type 0 where
  pub organization_id : Option ℕ
  pub listing_id : Option ℕ

abbrev pub route_to : Option (ℕ × ℕ) → Option ℕ → Route
route_to none host = record { organization_id = host; listing_id = none }
route_to (some (org, listing)) host = record {
  organization_id = some org;
  listing_id = some listing;
}

module _ (parse_uuid : Text → Option ℕ) (same_email : Text → Text → Bool) where
  -- `resolveListingOwner`; a text that is no uuid makes the query fail.
  unfoldable pub resolve_listing_owner : Text → Tables → Result HttpError (Option (ℕ × ℕ))
  resolve_listing_owner key t = elim (parse_uuid key) [
    | none ↦ err internal
    | some id ↦ ok (owner_of (find (λ l. l.id == id) t.listings))
  ]

  unfoldable pub owner_for : Option Text → Tables → Result HttpError (Option (ℕ × ℕ))
  owner_for none t = ok none
  owner_for (some []) t = ok none
  owner_for (some (c ∷ key)) t = resolve_listing_owner (c ∷ key) t

  abbrev pub contact_input : CreateLeadRequest → ContactInput
  contact_input input = record {
    full_name = input.name;
    email = some input.email;
    phone = input.phone;
    whatsapp_opt_in = input.whatsapp_opt_in;
  }

  abbrev pub new_lead :
      CreateLeadRequest → (org : ℕ) → (listing : Option ℕ) → (contact_id id : ℕ) → LeadRow
  new_lead input org listing contact_id id = record {
    id = id;
    organization_id = org;
    assigned_user_id = none;
    contact_id = contact_id;
    listing_id = listing;
    kind = input.kind;
    channel = web;
    status = new;
    score = score input;
    message = input.message;
    requirement = record {
      requirement = input.requirement;
      preferred_date = input.preferred_date;
      property_address = input.property_address;
      timeframe = input.timeframe;
    };
    source = input.source;
  }

  abbrev pub pending_for : CreateLeadRequest → (id org : ℕ) → PendingAcknowledgement
  pending_for input id org = record {
    lead_id = id;
    organization_id = org;
    contact_name = input.name;
    phone = input.phone;
    whatsapp_opt_in = get_or input.whatsapp_opt_in false;
    listing_label = input.property_address;
  }

  -- `create` from the contact on: the contact and the lead are two transactions.
  unfoldable pub file_lead :
      CreateLeadRequest
      → (org : ℕ) → (listing : Option ℕ) → (new_contact_id id : ℕ) → Tables
      → Intake
  file_lead input org listing new_contact_id id t =
      elim (find_or_create_contact same_email (contact_input input) new_contact_id t.contacts) [
        | none ↦ record { answer = err internal; tables = t; pending = none }
        | some (contact_id, contacts) ↦
            if any (λ l. l.id == id) t.leads
            then record {
              answer = err internal;
              tables = record t { contacts = contacts };
              pending = none;
            }
            else record {
              answer = ok id;
              tables = record t {
                contacts = contacts;
                leads = new_lead input org listing contact_id id ∷ t.leads;
              };
              pending = some (pending_for input id org);
            }
      ]

  unfoldable pub routed :
      CreateLeadRequest → Option ℕ → Option ℕ → (new_contact_id id : ℕ) → Tables → Intake
  routed input none listing new_contact_id id t = record {
    answer = err (unavailable "Enquiries cannot be accepted right now. Please call us instead.");
    tables = t;
    pending = none;
  }
  routed input (some org) listing new_contact_id id t =
      file_lead input org listing new_contact_id id t

  unfoldable pub create : CreateLeadRequest → (new_contact_id id : ℕ) → Tables → Intake
  create input new_contact_id id t = elim (owner_for input.listing_key t) [
    | err e ↦ record { answer = err e; tables = t; pending = none }
    | ok owner ↦
        let route = route_to owner (find_host_organization t) in
        routed input route.organization_id route.listing_id new_contact_id id t
  ]
