-- ===== src/Leads/Followup.antt =====
-- apps/api/src/leads/services/speed-to-lead.service.ts and `dispatchAcknowledgement` of
-- lead.service.ts: the message that answers an enquiry, and the entry that it leaves on the lead.
pub mod Consent
use real_estate_webapp.Prelude.{
  ℕ, Bool, true, false, ◌&&◌, Option, none, some, List, [], ◌∷◌, ◌++◌, ◌==◌, if◌then◌else◌, get_or,
  find, any, String, Text, codes, truthy, trim, is_space,
}
use real_estate_webapp.Messaging.{
  OutboundTemplateMessage, OutboundMessageProvider, OutboundConfig, OutboundAttempt,
}
use real_estate_webapp.Messaging as Outbound
use real_estate_webapp.Leads.Intake.{
  LeadRow, OrgRef, ActivityRow, Outcome, SkipReason, skipped, sent, simulated, failed, disabled,
  no_phone, no_consent, whatsapp_message, Tables, PendingAcknowledgement,
}

pub record SpeedToLeadConfig : Type 0 where
  pub enabled : Bool
  pub template : String
  pub template_language : String

pub record SpeedToLeadInput : Type 0 where
  pub lead_id : ℕ
  pub organization_id : ℕ
  pub organization_name : Text
  pub contact_name : Text
  pub phone_e164 : Option Text
  pub whatsapp_opt_in : Bool
  pub listing_label : Option Text

-- The message that was handed to the retrying sender, if any, and the tables afterwards.
pub record Acknowledged : Type 0 where
  pub message : Option OutboundTemplateMessage
  pub tables : Tables

abbrev pub take_word : Text → Text
unfolding is_space
take_word [] = []
take_word (c ∷ s) = if is_space c then [] else c ∷ take_word s

-- `fullName.trim().split(/\s+/)[0]`, or "there" in place of an empty word.
abbrev pub or_there : Text → Text
or_there [] = codes "there"
or_there (c ∷ s) = c ∷ s

unfoldable pub first_name : Text → Text
first_name full_name = or_there (take_word (trim full_name))

unfoldable pub reason_to_skip : SpeedToLeadConfig → SpeedToLeadInput → Option SkipReason
reason_to_skip cfg input =
    if cfg.enabled
    then (if truthy input.phone_e164
        then (if input.whatsapp_opt_in then none else some no_consent)
        else some no_phone)
    else some disabled

abbrev pub skip_body : SkipReason → Text
skip_body disabled = codes "No instant acknowledgement — speed-to-lead is switched off."
skip_body no_phone = codes "No instant acknowledgement — the enquiry left no phone number."
skip_body no_consent =
    codes "No instant acknowledgement — no WhatsApp consent was given. Call or email instead."

-- A row of lead that the policy `lead_tenant_policy` shows to an organisation.
abbrev pub visible : (lead_id org : ℕ) → LeadRow → Bool
visible lead_id org l = l.id == lead_id && l.organization_id == org

-- `recordActivity`: the policy of lead_activity refuses an entry for another organisation's lead, and
-- the foreign key refuses an actor who does not exist.
abbrev pub actor_exists : Option ℕ → Tables → Bool
actor_exists none t = true
actor_exists (some uid) t = any (λ u. u.id == uid) t.staff

unfoldable pub record_activity : ActivityRow → (org : ℕ) → Tables → Option Tables
record_activity row org t =
    if any (visible row.lead_id org) t.leads && actor_exists row.actor_user_id t
    then some (record t { activities = row ∷ t.activities })
    else none

abbrev pub entry : (lead_id : ℕ) → (body : Text) → Outcome → ActivityRow
entry lead_id body metadata = record {
  lead_id = lead_id;
  actor_user_id = none;
  type = whatsapp_message;
  body = some body;
  metadata = some metadata;
}

abbrev pub attempt_outcome : OutboundAttempt → Outcome
attempt_outcome attempt =
    if attempt.done
    then (if attempt.delivered then sent attempt else simulated attempt)
    else failed attempt

abbrev pub attempt_body : OutboundAttempt → Text
attempt_body attempt =
    if attempt.done
    then (if attempt.delivered
        then codes "Instant WhatsApp acknowledgement sent."
        else codes
            "Instant acknowledgement recorded but NOT sent — no live messaging provider is configured.")
    else codes "Instant WhatsApp acknowledgement failed: "
      ++ codes (get_or attempt.error "unknown error")

module _ (cfg : SpeedToLeadConfig) (outbound : OutboundConfig)
    (provider : OutboundMessageProvider) where
  abbrev pub template_message : SpeedToLeadInput → OutboundTemplateMessage
  template_message input = record {
    to_phone_e164 = get_or input.phone_e164 [];
    template = cfg.template;
    language_code = cfg.template_language;
    variables =
        first_name input.contact_name
        ∷ input.organization_name
        ∷ get_or input.listing_label (codes "your enquiry")
        ∷ [];
  }

  -- The entry that `acknowledge` writes, and the message whose fate it records.
  unfoldable pub outcome_of :
      SpeedToLeadInput → Option SkipReason → Option OutboundTemplateMessage × ActivityRow
  outcome_of input (some reason) = (none, entry input.lead_id (skip_body reason) (skipped reason))
  outcome_of input none =
      let message = template_message input in
      let (attempt, waits) = Outbound.send outbound provider message in
      (some message, entry input.lead_id (attempt_body attempt) (attempt_outcome attempt))

  -- A failed write of the entry is caught, and leaves the tables as they were.
  unfoldable pub acknowledge : SpeedToLeadInput → (org : ℕ) → Tables → Acknowledged
  acknowledge input org t =
      let (message, row) = outcome_of input (reason_to_skip cfg input) in
      record { message = message; tables = get_or (record_activity row org t) t }

  abbrev pub name_of : Option OrgRef → Text
  name_of none = codes "your property consultant"
  name_of (some o) = o.name

  abbrev pub acknowledgement_input : PendingAcknowledgement → Tables → SpeedToLeadInput
  acknowledgement_input p t = record {
    lead_id = p.lead_id;
    organization_id = p.organization_id;
    organization_name = name_of (find (λ o. o.id == p.organization_id) t.organizations);
    contact_name = p.contact_name;
    phone_e164 = p.phone;
    whatsapp_opt_in = p.whatsapp_opt_in;
    listing_label = p.listing_label;
  }

  unfoldable pub dispatch_acknowledgement : PendingAcknowledgement → Tables → Acknowledged
  dispatch_acknowledgement p t = acknowledge (acknowledgement_input p t) p.organization_id t
