-- ===== src/Leads/Pipeline/Queue/Urgency.antt =====
-- Which leads the follow-up queue shows, and which it leaves out.
use real_estate_webapp.Prelude.{
  true, ◌<◌, ◌≤◌, All, All-map, ℕ, suc, zero, ◌≡◌, ◌∙◌, sym, ap, subst, refl, ◌⊎◌, inl, inr, List,
  [], ◌∷◌, ◌++◌, ◌==◌, map, take, drop, length, rows_where, sort_by, IsOrder, IsOrdered,
  sort_by-IsOrdered, perm-sort_by, Permᴰ, arith,
}
use real_estate_webapp.Leads.{LeadKind, tour_request, home_valuation, contact, saved_search}
use real_estate_webapp.Leads.Intake.{LeadRow, Tables}
use real_estate_webapp.Leads.Pipeline.Queue.{
  with_contact, kind_rank, urgent, list_for_org, follow_up, queue_limit,
}

module _ {ℓ} {A : Type ℓ} where
  take-drop : (n : ℕ) (xs : List A) → take n xs ++ drop n xs ≡ xs
  unfolding take drop
  take-drop zero xs = refl
  take-drop (suc n) [] = refl
  take-drop (suc n) (x ∷ xs) = ap (◌∷◌ x) (take-drop n xs)

  full_or_all : (n : ℕ) (xs : List A) → (length (take n xs) ≡ n) ⊎ (drop n xs ≡ [])
  unfolding take drop
  full_or_all zero xs = inl refl
  full_or_all (suc n) [] = inr refl
  full_or_all (suc n) (x ∷ xs) = elim (full_or_all n xs) [
    | inl full ↦ inl (ap suc full)
    | inr all ↦ inr all
  ]

  map-take {κ} :
      {B : Type κ} (f : A → B) (n : ℕ) (xs : List A) → take n (map f xs) ≡ map f (take n xs)
  unfolding take
  map-take f zero xs = refl
  map-take f (suc n) [] = refl
  map-take f (suc n) (x ∷ xs) = ap (◌∷◌ (f x)) (map-take f n xs)

map_twice {ℓ κ μ} :
    {A : Type ℓ} {B : Type κ} {C : Type μ} (f : A → B) (g : B → C) (xs : List A)
    → map g (map f xs) ≡ map (λ x. g (f x)) xs
map_twice f g [] = refl
map_twice f g (x ∷ xs) = ap (◌∷◌ (g (f x))) (map_twice f g xs)

-- A kind of lead that is followed up before another.
pub data IsSooner : LeadKind → LeadKind → Type 0 where
  tour_valuation : IsSooner tour_request home_valuation
  tour_contact : IsSooner tour_request contact
  tour_search : IsSooner tour_request saved_search
  valuation_contact : IsSooner home_valuation contact
  valuation_search : IsSooner home_valuation saved_search
  contact_search : IsSooner contact saved_search

-- Why one lead may stand before another: its kind, then a higher score, then a later arrival.
pub data IsBefore (created_at : (lead_id : ℕ) → ℕ) (a b : LeadRow) : Type 0 where
  by_kind : IsSooner a.kind b.kind → IsBefore created_at a b
  by_score : a.kind ≡ b.kind → b.score < a.score → IsBefore created_at a b
  by_arrival :
      a.kind ≡ b.kind
      → a.score ≡ b.score
      → created_at b.id ≤ created_at a.id
      → IsBefore created_at a b

-- Every lead stands before all that follow it.
abbrev pub IsInLine : (created_at : (lead_id : ℕ) → ℕ) → List LeadRow → Type 0
IsInLine created_at [] = Unit
IsInLine created_at (l ∷ ls) = All (IsBefore created_at l) ls × IsInLine created_at ls

IsSooner-kind : (k m : LeadKind) → kind_rank k < kind_rank m → IsSooner k m
IsSooner-kind tour_request home_valuation h = tour_valuation
IsSooner-kind tour_request contact h = tour_contact
IsSooner-kind tour_request saved_search h = tour_search
IsSooner-kind home_valuation contact h = valuation_contact
IsSooner-kind home_valuation saved_search h = valuation_search
IsSooner-kind contact saved_search h = contact_search
IsSooner-kind tour_request tour_request h = absurd (omega (arith, h))
IsSooner-kind home_valuation tour_request h = absurd (omega (arith, h))
IsSooner-kind home_valuation home_valuation h = absurd (omega (arith, h))
IsSooner-kind contact tour_request h = absurd (omega (arith, h))
IsSooner-kind contact home_valuation h = absurd (omega (arith, h))
IsSooner-kind contact contact h = absurd (omega (arith, h))
IsSooner-kind saved_search tour_request h = absurd (omega (arith, h))
IsSooner-kind saved_search home_valuation h = absurd (omega (arith, h))
IsSooner-kind saved_search contact h = absurd (omega (arith, h))
IsSooner-kind saved_search saved_search h = absurd (omega (arith, h))

same_kind : (k m : LeadKind) → kind_rank k ≡ kind_rank m → k ≡ m
same_kind tour_request tour_request h = refl
same_kind home_valuation home_valuation h = refl
same_kind contact contact h = refl
same_kind saved_search saved_search h = refl
same_kind tour_request home_valuation h = absurd (omega (arith, h))
same_kind tour_request contact h = absurd (omega (arith, h))
same_kind tour_request saved_search h = absurd (omega (arith, h))
same_kind home_valuation tour_request h = absurd (omega (arith, h))
same_kind home_valuation contact h = absurd (omega (arith, h))
same_kind home_valuation saved_search h = absurd (omega (arith, h))
same_kind contact tour_request h = absurd (omega (arith, h))
same_kind contact home_valuation h = absurd (omega (arith, h))
same_kind contact saved_search h = absurd (omega (arith, h))
same_kind saved_search tour_request h = absurd (omega (arith, h))
same_kind saved_search home_valuation h = absurd (omega (arith, h))
same_kind saved_search contact h = absurd (omega (arith, h))

module _ (created_at : (lead_id : ℕ) → ℕ) where
  urgent-IsOrder : IsOrder (urgent created_at) (λ l. 0)
  unfolding urgent
  urgent-IsOrder = record {
    total = λ a b off. ground (arith, off);
    trans = λ a b c ab bc. ground (arith, ab, bc);
    tied = λ a b ab ba. refl;
  }

  urgent-cases :
      (a b : LeadRow)
      → urgent created_at a b ≡ true
      → (kind_rank a.kind < kind_rank b.kind)
        ⊎ ((kind_rank a.kind ≡ kind_rank b.kind)
            × ((b.score < a.score) ⊎ ((a.score ≡ b.score) × (created_at b.id ≤ created_at a.id))))
  unfolding urgent
  urgent-cases a b h = ground (arith, h)

  urgent-IsBefore : (a b : LeadRow) → urgent created_at a b ≡ true → IsBefore created_at a b
  urgent-IsBefore a b h = elim (urgent-cases a b h) [
    | inl sooner ↦ by_kind (IsSooner-kind a.kind b.kind sooner)
    | inr (kind, inl higher) ↦ by_score (same_kind a.kind b.kind kind) higher
    | inr (kind, inr (score, later)) ↦ by_arrival (same_kind a.kind b.kind kind) score later
  ]

  IsOrdered-IsInLine :
      (ls : List LeadRow) → IsOrdered (urgent created_at) ls → IsInLine created_at ls
  IsOrdered-IsInLine [] h = tt
  IsOrdered-IsInLine (l ∷ ls) (below, h) = (
    All-map (λ m. urgent created_at l m ≡ true) (IsBefore created_at l) (urgent-IsBefore l) ls
        below,
    IsOrdered-IsInLine ls h,
  )

  -- The queue is a list of the organisation's most urgent leads, and only of its own: together with the
  -- leads that it leaves out it holds each lead of the organisation once, and one is left out only
  -- where a hundred are shown. Every lead stands before all that follow it: tour requests before home
  -- valuations, contacts and saved searches, in this order, in one kind the higher score first, and at
  -- one score the later arrival.
  pub list_for_org-urgent :
      (org : ℕ) (t : Tables)
      → (shown : List LeadRow) × (hidden : List LeadRow) × (list_for_org created_at org t
          ≡ map (λ l. follow_up created_at (with_contact t l)) shown)
        × Permᴰ (shown ++ hidden) (rows_where (λ l. l.organization_id == org) t.leads)
        × IsInLine created_at (shown ++ hidden)
        × ((length shown ≡ 100) ⊎ (hidden ≡ []))
  unfolding list_for_org
  list_for_org-urgent org t =
      let own = rows_where (λ (l : LeadRow). l.organization_id == org) t.leads in
      let sorted = sort_by (urgent created_at) own in
      let split = sym (take-drop queue_limit sorted) in
      (
        take queue_limit sorted,
        drop queue_limit sorted,
        ap (map (follow_up created_at)) (map-take (with_contact t) queue_limit sorted)
            ∙ map_twice (with_contact t) (follow_up created_at) (take queue_limit sorted),
        subst (λ xs. Permᴰ xs own) split (perm-sort_by (urgent created_at) own),
        subst (IsInLine created_at) split (
            IsOrdered-IsInLine sorted
              (sort_by-IsOrdered (urgent created_at) (λ l. 0) urgent-IsOrder own)),
        full_or_all queue_limit sorted,
      )
