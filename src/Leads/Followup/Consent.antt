-- ===== src/Leads/Followup/Consent.antt =====
-- What the acknowledgement of an enquiry sends, and what it leaves on the lead.
use real_estate_webapp.Prelude.{
  ℕ, Bool, sym, ◌≡◌, ◌∙◌, ap, refl, some-injective, true, Option, none, some, [], ◌∷◌, arith, any,
  Text, truthy, get_or,
}
use real_estate_webapp.Messaging.{OutboundTemplateMessage, OutboundMessageProvider, OutboundConfig}
use real_estate_webapp.Leads.{CreateLeadRequest}
use real_estate_webapp.Leads.Delivery.{create-started}
use real_estate_webapp.Leads.Intake.{
  create, ActivityRow, Tables, PendingAcknowledgement, SkipReason,
}
use real_estate_webapp.Leads.Followup.{
  SpeedToLeadConfig, SpeedToLeadInput, reason_to_skip, visible, record_activity, outcome_of,
  acknowledge, acknowledgement_input, dispatch_acknowledgement, template_message,
}

module _ (cfg : SpeedToLeadConfig) (outbound : OutboundConfig)
    (provider : OutboundMessageProvider) where
  may_send :
      (input : SpeedToLeadInput)
      → reason_to_skip cfg input ≡ none
      → (cfg.enabled ≡ true) × (truthy input.phone_e164 ≡ true) × (input.whatsapp_opt_in ≡ true)
  unfolding reason_to_skip
  may_send input h = ground arith

  phone_given : (phone : Option Text) → truthy phone ≡ true → phone ≡ some (get_or phone [])
  phone_given none h = ground arith
  phone_given (some s) h = refl

  outcome_message :
      (input : SpeedToLeadInput) (skip : Option SkipReason) (m : OutboundTemplateMessage)
      → (outcome_of cfg outbound provider input skip).0 ≡ some m
      → (skip ≡ none) × (template_message cfg outbound provider input ≡ m)
  unfolding outcome_of
  outcome_message input (some reason) m h = absurd (ground arith)
  outcome_message input none m h = (refl, some-injective _ _ h)

  outcome_row :
      (input : SpeedToLeadInput) (skip : Option SkipReason)
      → ((outcome_of cfg outbound provider input skip).1.lead_id ≡ input.lead_id)
        × ((outcome_of cfg outbound provider input skip).1.actor_user_id ≡ none)
  unfolding outcome_of
  outcome_row input (some reason) = (refl, refl)
  outcome_row input none = (refl, refl)

  sent_message :
      (p : PendingAcknowledgement) (t : Tables) (m : OutboundTemplateMessage)
      → (dispatch_acknowledgement cfg outbound provider p t).message ≡ some m
      → (cfg.enabled ≡ true)
        × (p.whatsapp_opt_in ≡ true)
        × (truthy p.phone ≡ true)
        × (p.phone ≡ some m.to_phone_e164)
  unfolding dispatch_acknowledgement acknowledge
  sent_message p t m h =
      let input = acknowledgement_input cfg outbound provider p t in
      let (allowed, same) = outcome_message input (reason_to_skip cfg input) m h in
      let (on, given, agreed) = may_send input allowed in
      (on, agreed, given, phone_given p.phone given ∙ ap (λ x. some x.to_phone_e164) same)

  -- From the form to the message: where an enquiry starts an acknowledgement and that sends a message,
  -- whatever the tables are by then, the feature is on, the enquiry itself says that its sender agrees
  -- to be written to, it leaves a phone number that is not empty, and the message goes to that number.
  pub message_with_consent :
      (parse_uuid : Text → Option ℕ) (same_email : Text → Text → Bool) (input : CreateLeadRequest)
      (new_contact_id id : ℕ) (t u : Tables) (p : PendingAcknowledgement)
      (m : OutboundTemplateMessage)
      → (create parse_uuid same_email input new_contact_id id t).pending ≡ some p
      → (dispatch_acknowledgement cfg outbound provider p u).message ≡ some m
      → (cfg.enabled ≡ true)
        × (input.whatsapp_opt_in ≡ some true)
        × (truthy input.phone ≡ true)
        × (input.phone ≡ some m.to_phone_e164)
  message_with_consent parse_uuid same_email input new_contact_id id t u p m begun h =
      let (org, start) = create-started parse_uuid same_email input new_contact_id id t p begun in
      let (on, agreed, given, to) = sent_message p u m h in
      (on, start.agreed agreed, sym (ap truthy start.same_phone) ∙ given, sym start.same_phone ∙ to)

  -- Whatever the provider does, the acknowledgement of a stored lead changes nothing but the activity
  -- trail, to which it adds one entry about that lead that names no person as its author.
  pub acknowledgement_leaves_entry :
      (p : PendingAcknowledgement) (t : Tables)
      → any (visible p.lead_id p.organization_id) t.leads ≡ true
      → (row : ActivityRow) × (row.lead_id ≡ p.lead_id)
        × (row.actor_user_id ≡ none)
        × (dispatch_acknowledgement cfg outbound provider p t).tables
          ≡ record t { activities = row ∷ t.activities }
  unfolding dispatch_acknowledgement acknowledge record_activity
  acknowledgement_leaves_entry p t h =
      let input = acknowledgement_input cfg outbound provider p t in
      let skip = reason_to_skip cfg input in
      let (about, system) = outcome_row input skip in
      ((outcome_of cfg outbound provider input skip).1, about, system, rw (about, system, h) refl)
