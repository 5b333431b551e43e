-- ===== src/Leads/Pipeline.antt =====
-- `updateStatus` of apps/api/src/leads: lead.service.ts, with the query of lead.repository.ts and
-- the policies of migrations 0010 and 0019 that it runs under.
pub mod Tenancy
pub mod Queue
use real_estate_webapp.Prelude.{
  ℕ, Bool, true, false, ◌&&◌, Option, none, some, List, [], ◌∷◌, ◌++◌, ◌==◌, if◌then◌else◌, get_or,
  is_some, or_else, find, any, update_where, Result, ok, err, String, Text, codes, truthy,
}
use real_estate_webapp.Http.{HttpError, not_found, internal}
use real_estate_webapp.Leads.Intake.{
  LeadRow, LeadStatus, new, contacted, qualified, viewing, negotiating, won, lost, ActivityRow,
  ActivityType, status_change, note, Tables,
}
use real_estate_webapp.Leads.Followup.{visible, actor_exists, record_activity}

-- The outer option of `assigned_user_id` is its presence in the request, the inner one its null.
pub record Patch : Type 0 where
  pub status : Option LeadStatus
  pub assigned_user_id : Option (Option ℕ)
  pub note : Option Text

pub record Principal : Type 0 where
  pub organization_id : ℕ
  pub user_id : ℕ

pub record Updated : Type 0 where
  pub answer : Result {0, 0} HttpError Unit
  pub tables : Tables

abbrev pub patched : Patch → LeadRow → LeadRow
patched patch l = record l {
  status = get_or patch.status l.status;
  assigned_user_id = get_or patch.assigned_user_id l.assigned_user_id;
}

-- The foreign key of `assigned_user_id` on app_user(id), whose check no policy filters.
abbrev pub assignee_exists : Option (Option ℕ) → Tables → Bool
assignee_exists none t = true
assignee_exists (some user) t = actor_exists user t

-- `LeadRepository.updateStatus`: whether a row was updated, and the tables after it.
unfoldable pub update_lead :
    (lead_id : ℕ) → Patch → (org : ℕ) → Tables → Result HttpError (Bool × Tables)
update_lead lead_id patch org t =
    if any (visible lead_id org) t.leads
    then (if assignee_exists patch.assigned_user_id t
        then ok
            (true, record t { leads = update_where (visible lead_id org) (patched patch) t.leads })
        else err internal)
    else ok (false, t)

abbrev pub status_name : LeadStatus → Text
status_name new = codes "NEW"
status_name contacted = codes "CONTACTED"
status_name qualified = codes "QUALIFIED"
status_name viewing = codes "VIEWING"
status_name negotiating = codes "NEGOTIATING"
status_name won = codes "WON"
status_name lost = codes "LOST"

abbrev pub status_part : Option LeadStatus → List Text
status_part none = []
status_part (some s) = (codes "status → " ++ status_name s) ∷ []

abbrev pub assignment_part : Option (Option ℕ) → List Text
assignment_part none = []
assignment_part (some none) = codes "unassigned" ∷ []
assignment_part (some (some uid)) = codes "reassigned" ∷ []

abbrev pub note_part : Option Text → List Text
note_part none = []
note_part (some []) = []
note_part (some (c ∷ s)) = (c ∷ s) ∷ []

abbrev pub joined : List Text → Text
joined [] = []
joined (p ∷ []) = p
joined (p ∷ q ∷ ps) = p ++ codes " · " ++ joined (q ∷ ps)

-- `parts.join(" · ") || undefined`
abbrev pub non_empty : Text → Option Text
non_empty [] = none
non_empty (c ∷ s) = some (c ∷ s)

abbrev pub change_entry : (lead_id : ℕ) → Patch → Principal → ActivityRow
change_entry lead_id patch principal = record {
  lead_id = lead_id;
  actor_user_id = some principal.user_id;
  type = if is_some patch.status then status_change else note;
  body = non_empty (
      joined (
        status_part patch.status
        ++ assignment_part patch.assigned_user_id
        ++ note_part patch.note));
  metadata = none;
}

-- The entry is a second transaction: where it fails, the update stays.
abbrev pub noted : Option Tables → Tables → Updated
noted none t = record { answer = err internal; tables = t }
noted (some noted_tables) t = record { answer = ok tt; tables = noted_tables }

unfoldable pub after_update :
    Result HttpError (Bool × Tables) → (lead_id : ℕ) → Patch → Principal → Tables → Updated
after_update (err e) lead_id patch principal t = record { answer = err e; tables = t }
after_update (ok (false, same)) lead_id patch principal t = record {
  answer = err (not_found "Lead not found.");
  tables = same;
}
after_update (ok (true, updated)) lead_id patch principal t =
    noted (record_activity (change_entry lead_id patch principal) principal.organization_id updated)
      updated

unfoldable pub update_status : (lead_id : ℕ) → Patch → Principal → Tables → Updated
update_status lead_id patch principal t =
    after_update (update_lead lead_id patch principal.organization_id t) lead_id patch principal t
