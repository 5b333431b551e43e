-- ===== src/Leads/Pipeline/Tenancy.antt =====
-- What staff of one organisation can change and learn through the pipeline of leads.
use real_estate_webapp.Prelude.{
  ℕ, ◌≡◌, ◌≢◌, ◌∙◌, sym, inl, inr, ap, refl, Bool, true, false, ◌&&◌, Option, none, some, List, [],
  ◌∷◌, ◌==◌, if◌then◌else◌, arith, any, update_where, any-update_where, get_elem?,
  get_elem-update_where, Result, ok, err, Bool-cases,
}
use real_estate_webapp.Http.{HttpError, not_found, internal}
use real_estate_webapp.Leads.Intake.{LeadRow, Tables}
use real_estate_webapp.Leads.Followup.{visible, actor_exists, record_activity}
use real_estate_webapp.Leads.Pipeline.{
  Patch, Principal, patched, assignee_exists, update_lead, after_update, update_status,
  change_entry, noted,
}

noted_leads :
    (lead_id : ℕ) (patch : Patch) (principal : Principal) (t : Tables)
    → (noted
        (record_activity (change_entry lead_id patch principal) principal.organization_id t)
        t).tables.leads
      ≡ t.leads
unfolding record_activity
noted_leads lead_id patch principal t = ground arith

-- Staff cannot change a lead of another organisation: whatever the request and its answer, the row
-- stays as it was.
pub other_tenant_kept :
    (lead_id i : ℕ) (patch : Patch) (principal : Principal) (t : Tables) (l : LeadRow)
    → get_elem? t.leads i ≡ some l
    → l.organization_id ≢ principal.organization_id
    → get_elem? (update_status lead_id patch principal t).tables.leads i ≡ some l
unfolding update_status update_lead after_update
other_tenant_kept lead_id i patch principal t l e other =
    let p = visible lead_id principal.organization_id in
    let hidden : visible lead_id principal.organization_id l ≡ false = ground (arith, other) in
    elim (Bool-cases (any p t.leads)) [
      | inr none_visible ↦ rw (none_visible) e
      | inl some_visible ↦ elim (Bool-cases (assignee_exists patch.assigned_user_id t)) [
        | inr unknown ↦ rw (some_visible, unknown) e
        | inl known ↦
            rw (some_visible, known, noted_leads)
              (get_elem-update_where p (patched patch) t.leads i l e
                ∙ ap (λ b. some (if b then patched patch l else l)) hidden)
      ]
    ]

-- The rows of lead that the policy shows to an organisation.
abbrev pub rows_shown : (org : ℕ) → List LeadRow → List LeadRow
rows_shown org [] = []
rows_shown org (l ∷ ls) =
    if l.organization_id == org then l ∷ rows_shown org ls else rows_shown org ls

any-rows_shown :
    (lead_id org : ℕ) (ls : List LeadRow)
    → any (λ l. l.id == lead_id) (rows_shown org ls) ≡ any (visible lead_id org) ls
unfolding any
any-rows_shown lead_id org [] = refl
any-rows_shown lead_id org (l ∷ ls) =
    let ih = any-rows_shown lead_id org ls in
    elim (Bool-cases (l.organization_id == org)) [
      | inl ours ↦ ground (arith, ours, ih)
      | inr theirs ↦ ground (arith, theirs, ih)
    ]

any-visible-patched :
    (lead_id : ℕ) (patch : Patch) (org : ℕ) (ls : List LeadRow)
    → any (visible lead_id org) (update_where (visible lead_id org) (patched patch) ls)
      ≡ any (visible lead_id org) ls
any-visible-patched lead_id patch org ls =
    any-update_where (visible lead_id org) (visible lead_id org) (patched patch) (λ l. refl) ls

-- The answer in terms of what the request can observe.
abbrev verdict : (found assignee actor : Bool) → Result {0, 0} HttpError Unit
verdict false assignee actor = err (not_found "Lead not found.")
verdict true false actor = err internal
verdict true true false = err internal
verdict true true true = ok tt

update_status-verdict :
    (lead_id : ℕ) (patch : Patch) (principal : Principal) (t : Tables)
    → (update_status lead_id patch principal t).answer
      ≡ verdict
          (any (visible lead_id principal.organization_id) t.leads)
          (assignee_exists patch.assigned_user_id t)
          (actor_exists (some principal.user_id) t)
unfolding update_status update_lead after_update record_activity
update_status-verdict lead_id patch principal t =
    let p = visible lead_id principal.organization_id in
    let still = any-visible-patched lead_id patch principal.organization_id t.leads in
    elim (Bool-cases (any p t.leads)) [
      | inr none_visible ↦ rw (none_visible) refl
      | inl some_visible ↦ elim (Bool-cases (assignee_exists patch.assigned_user_id t)) [
        | inr unknown ↦ rw (some_visible, unknown) refl
        | inl known ↦ elim (Bool-cases (any (λ u. u.id == principal.user_id) t.staff)) [
          | inr gone ↦ rw (some_visible, known, still ∙ some_visible, gone) refl
          | inl there ↦ rw (some_visible, known, still ∙ some_visible, there) refl
        ]
      ]
    ]

assignee_exists-staff :
    (user : Option (Option ℕ)) (t u : Tables)
    → t.staff ≡ u.staff
    → assignee_exists user t ≡ assignee_exists user u
assignee_exists-staff none t u same = refl
assignee_exists-staff (some none) t u same = refl
assignee_exists-staff (some (some uid)) t u same = ap (any (λ x. x.id == uid)) same

-- An answer says nothing about the leads of other organisations: it is the same on any two tables
-- that agree on the staff and on the leads of the organisation that asks.
pub answer_hides_other_tenants :
    (lead_id : ℕ) (patch : Patch) (principal : Principal) (t u : Tables)
    → t.staff ≡ u.staff
    → rows_shown principal.organization_id t.leads ≡ rows_shown principal.organization_id u.leads
    → (update_status lead_id patch principal t).answer
      ≡ (update_status lead_id patch principal u).answer
answer_hides_other_tenants lead_id patch principal t u staff shown =
    let org = principal.organization_id in
    let seen : any (visible lead_id org) t.leads ≡ any (visible lead_id org) u.leads =
      sym (any-rows_shown lead_id org t.leads)
      ∙ ap (any (λ l. l.id == lead_id)) shown
      ∙ any-rows_shown lead_id org u.leads in
    rw
      (
        update_status-verdict lead_id patch principal t,
        update_status-verdict lead_id patch principal u,
        seen,
        assignee_exists-staff patch.assigned_user_id t u staff,
        staff,
      )
      refl

any-update_where_reached {ℓ} :
    {A : Type ℓ} (p q : A → Bool) (f : A → A)
    → ((x : A) → p x ≡ true → q (f x) ≡ true)
    → (xs : List A) → any p xs ≡ true
    → any q (update_where p f xs) ≡ true
unfolding any update_where
any-update_where_reached p q f h [] e = ground arith
any-update_where_reached p q f h (x ∷ xs) e =
    ground (arith, h x, any-update_where_reached p q f h xs)

abbrev has_assignee : (uid : ℕ) → Option ℕ → Bool
has_assignee uid none = false
has_assignee uid (some u) = u == uid

-- An organisation's lead that is assigned to a person.
abbrev pub assigned : (lead_id org uid : ℕ) → LeadRow → Bool
assigned lead_id org uid l = visible lead_id org l && has_assignee uid l.assigned_user_id
