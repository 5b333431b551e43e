-- ===== src/Leads/Delivery.antt =====
-- A lead that is accepted is stored, where it belongs.
use real_estate_webapp.Prelude.{
  subst, some-injective, ap, get_or, ℕ, ◌≡◌, inl, inr, refl, Bool, true, false, Option, none, some,
  ◌∷◌, ◌==◌, arith, any, ok, err, Result-cases, Text, Option-cases, Bool-cases,
}
use real_estate_webapp.Http.{HttpError}
use real_estate_webapp.Contacts.{find_or_create_contact}
use real_estate_webapp.Leads.{CreateLeadRequest, score}
use real_estate_webapp.Leads.Intake.{
  web, new, LeadRow, PendingAcknowledgement, Tables, Intake, route_to, find_host_organization,
  owner_for, contact_input, pending_for, file_lead, routed, create,
}

module _ (parse_uuid : Text → Option ℕ) (same_email : Text → Text → Bool) where
  -- What a stored lead says, field by field.
  pub record IsLeadOf (input : CreateLeadRequest) (org : ℕ) (listing : Option ℕ) (contact_id id : ℕ)
      (l : LeadRow) : Type 0 where
    pub id_given : l.id ≡ id
    pub belongs : l.organization_id ≡ org
    pub about : l.listing_id ≡ listing
    pub sender : l.contact_id ≡ contact_id
    pub unassigned : l.assigned_user_id ≡ none
    pub same_kind : l.kind ≡ input.kind
    pub from_web : l.channel ≡ web
    pub not_handled : l.status ≡ new
    pub scored : l.score ≡ score input
    pub same_message : l.message ≡ input.message
    pub same_requirement : l.requirement.requirement ≡ input.requirement
    pub same_date : l.requirement.preferred_date ≡ input.preferred_date
    pub same_address : l.requirement.property_address ≡ input.property_address
    pub same_timeframe : l.requirement.timeframe ≡ input.timeframe
    pub same_source : l.source ≡ input.source

  -- What an acknowledgement is started with. Consent that is left open is none.
  pub record IsStartedFor (input : CreateLeadRequest) (id org : ℕ) (p : PendingAcknowledgement)
      : Type 0 where
    pub same_lead : p.lead_id ≡ id
    pub same_org : p.organization_id ≡ org
    pub same_name : p.contact_name ≡ input.name
    pub same_phone : p.phone ≡ input.phone
    pub agreed : p.whatsapp_opt_in ≡ true → input.whatsapp_opt_in ≡ some true
    pub agreement_kept : input.whatsapp_opt_in ≡ some true → p.whatsapp_opt_in ≡ true
    pub same_label : p.listing_label ≡ input.property_address

  get_or-agreed : (o : Option Bool) → get_or o false ≡ true → o ≡ some true
  get_or-agreed none h = absurd (ground arith)
  get_or-agreed (some b) h = ap (λ x. some x) h

  pending_for-IsStartedFor :
      (input : CreateLeadRequest) (id org : ℕ)
      → IsStartedFor input id org (pending_for parse_uuid same_email input id org)
  pending_for-IsStartedFor input id org = record {
    same_lead = refl;
    same_org = refl;
    same_name = refl;
    same_phone = refl;
    agreed = get_or-agreed input.whatsapp_opt_in;
    agreement_kept = λ yes. ap (λ (o : Option Bool). get_or o false) yes;
    same_label = refl;
  }

  -- The lead is added to the leads there were, for a contact that exists, and its acknowledgement is
  -- started for the same organisation.
  pub record IsFiled (input : CreateLeadRequest) (org : ℕ) (listing : Option ℕ) (id : ℕ)
      (t : Tables) (out : Intake) : Type 0 where
    pub contact_id : ℕ
    pub lead : LeadRow
    pub pending : PendingAcknowledgement
    pub stored : out.tables.leads ≡ lead ∷ t.leads
    pub right_lead : IsLeadOf input org listing contact_id id lead
    pub contact_known : any (λ c. c.id == contact_id) out.tables.contacts ≡ true
    pub started : out.pending ≡ some pending
    pub right_start : IsStartedFor input id org pending

  create_of_owner :
      (input : CreateLeadRequest) (owner : Option (ℕ × ℕ)) (new_contact_id id : ℕ) (t : Tables)
      → owner_for parse_uuid same_email input.listing_key t ≡ ok owner
      → create parse_uuid same_email input new_contact_id id t
        ≡ routed parse_uuid same_email input
            (route_to owner (find_host_organization t)).organization_id
            (route_to owner (find_host_organization t)).listing_id
            new_contact_id
            id
            t
  unfolding create
  create_of_owner input owner new_contact_id id t e = rw (e, create) refl

  create_of_error :
      (input : CreateLeadRequest) (x : HttpError) (new_contact_id id : ℕ) (t : Tables)
      → owner_for parse_uuid same_email input.listing_key t ≡ err x
      → create parse_uuid same_email input new_contact_id id t
        ≡ record { answer = err x; tables = t; pending = none }
  unfolding create
  create_of_error input x new_contact_id id t e = rw (e, create) refl

  nothing_started :
      (p : PendingAcknowledgement) → ◌≡◌ {A = Option PendingAcknowledgement} none (some p) → ⊥
  nothing_started p h = ground arith

  file-started :
      (input : CreateLeadRequest) (org : ℕ) (listing : Option ℕ) (new_contact_id id : ℕ)
      (t : Tables) (p : PendingAcknowledgement)
      → (file_lead parse_uuid same_email input org listing new_contact_id id t).pending ≡ some p
      → IsStartedFor input id org p
  unfolding file_lead
  file-started input org listing new_contact_id id t p h =
      elim (Option-cases (
        find_or_create_contact same_email (contact_input parse_uuid same_email input) new_contact_id
          t.contacts)) [
            | inl refused ↦ absurd (nothing_started p (rw (file_lead, refused) at h))
            | inr ((cid, contacts), e) ↦ elim (Bool-cases (any (λ l. l.id == id) t.leads)) [
              | inl taken ↦ absurd (nothing_started p (rw (file_lead, e, taken) at h))
              | inr fresh ↦
                  subst (IsStartedFor input id org)
                    (some-injective (pending_for parse_uuid same_email input id org) p
                      (rw (file_lead, e, fresh) at h))
                    (pending_for-IsStartedFor input id org)
            ]
          ]

  routed-started :
      (input : CreateLeadRequest) (o listing : Option ℕ) (new_contact_id id : ℕ) (t : Tables)
      (p : PendingAcknowledgement)
      → (routed parse_uuid same_email input o listing new_contact_id id t).pending ≡ some p
      → (org : ℕ) × IsStartedFor input id org p
  unfolding routed
  routed-started input none listing new_contact_id id t p h = absurd (nothing_started p h)
  routed-started input (some org) listing new_contact_id id t p h =
      (org, file-started input org listing new_contact_id id t p h)

  -- An acknowledgement is started with what its enquiry says only.
  pub create-started :
      (input : CreateLeadRequest) (new_contact_id id : ℕ) (t : Tables) (p : PendingAcknowledgement)
      → (create parse_uuid same_email input new_contact_id id t).pending ≡ some p
      → (org : ℕ) × IsStartedFor input id org p
  create-started input new_contact_id id t p h =
      elim (Result-cases (owner_for parse_uuid same_email input.listing_key t)) [
        | inr (x, e) ↦
            absurd (nothing_started p (rw (create_of_error input x new_contact_id id t e) at h))
        | inl (owner, e) ↦
            routed-started input (route_to owner (find_host_organization t)).organization_id
              (route_to owner (find_host_organization t)).listing_id new_contact_id id t p
              (rw (create_of_owner input owner new_contact_id id t e) at h)
      ]
