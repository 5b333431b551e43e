-- ===== src/Leads/Pipeline/Queue.antt =====
-- `listForOrg` of apps/api/src/leads/services/lead.service.ts with `findForOrg` of lead.repository.ts:
-- the leads that staff follow up.
--
-- `created_at` is the column that the database fills in, which nothing else reads. Leads that the
-- ORDER BY ties stand in the order of the table, which the database is free to choose.
pub mod Urgency
use real_estate_webapp.Prelude.{
  ℕ, Bool, true, false, ◌&&◌, ◌||◌, Option, none, some, List, ◌==◌, ltb, leb, find, map, take,
  rows_where, sort_by, get_or, Text,
}
use real_estate_webapp.Contacts.{ContactRow}
use real_estate_webapp.Leads.{
  LeadKind, tour_request, home_valuation, contact, saved_search, LeadSource,
}
use real_estate_webapp.Leads.Intake.{LeadRow, LeadStatus, LeadChannel, LeadRequirement, Tables}

-- `LeadRow` of lead.row.ts: a lead with its contact, where it has one.
pub record QueueRow : Type 0 where
  pub lead : LeadRow
  pub contact : Option ContactRow

pub record FollowUp : Type 0 where
  pub id : ℕ
  pub kind : LeadKind
  pub channel : LeadChannel
  pub status : LeadStatus
  pub score : ℕ
  pub message : Option Text
  pub listing_id : Option ℕ
  pub created_at : ℕ
  pub name : Option Text
  pub email : Option Text
  pub phone : Option Text
  pub whatsapp_opt_in : Bool
  pub requirement : LeadRequirement
  pub source : Option LeadSource

abbrev pub kind_rank : LeadKind → ℕ
kind_rank tour_request = 0
kind_rank home_valuation = 1
kind_rank contact = 2
kind_rank saved_search = 3

abbrev pub with_contact : Tables → LeadRow → QueueRow
with_contact t l = record { lead = l; contact = find (λ c. c.id == l.contact_id) t.contacts }

abbrev pub of_contact {ℓ} : {A : Type ℓ} → (ContactRow → Option A) → Option ContactRow → Option A
of_contact column none = none
of_contact column (some c) = column c

abbrev pub queue_limit : ℕ
queue_limit = 100

module _ (created_at : (lead_id : ℕ) → ℕ) where
  -- `ORDER BY CASE l.kind ... END, l.score DESC, l.created_at DESC`
  unfoldable pub urgent : LeadRow → LeadRow → Bool
  urgent a b =
      ltb (kind_rank a.kind) (kind_rank b.kind)
      || (kind_rank a.kind == kind_rank b.kind
          && (ltb b.score a.score
              || (b.score == a.score && leb (created_at b.id) (created_at a.id))))

  unfoldable pub find_for_org : (org limit : ℕ) → Tables → List QueueRow
  find_for_org org limit t =
      take limit
        (map (with_contact t) (sort_by urgent (rows_where (λ l. l.organization_id == org) t.leads)))

  abbrev pub follow_up : QueueRow → FollowUp
  follow_up r = record {
    id = r.lead.id;
    kind = r.lead.kind;
    channel = r.lead.channel;
    status = r.lead.status;
    score = r.lead.score;
    message = r.lead.message;
    listing_id = r.lead.listing_id;
    created_at = created_at r.lead.id;
    name = of_contact (λ c. c.full_name) r.contact;
    email = of_contact (λ c. c.primary_email) r.contact;
    phone = of_contact (λ c. c.primary_phone) r.contact;
    whatsapp_opt_in = get_or (of_contact (λ c. some c.whatsapp_opt_in) r.contact) false;
    requirement = r.lead.requirement;
    source = r.lead.source;
  }

  unfoldable pub list_for_org : (org : ℕ) → Tables → List FollowUp
  unfolding find_for_org
  list_for_org org t = map follow_up (find_for_org org queue_limit t)
