-- ===== src/Leads.antt =====
-- apps/api/src/leads: what the website's forms submit, and its priority score.
pub mod Intake
pub mod Followup
pub mod Delivery
pub mod Pipeline
mod Tests
use real_estate_webapp.Prelude.{
  ℕ, ◌+◌, Bool, true, false, ◌&&◌, Option, none, some, if◌then◌else◌, ltb, length, Text, truthy,
  trim, min, max,
}

pub data LeadKind : Type 0 where
  tour_request home_valuation contact saved_search : LeadKind

pub record Requirement : Type 0 where
  pub city_slug : Option Text
  pub locality_slug : Option Text
  pub property_type : Option Text
  pub min_price : Option ℕ
  pub max_price : Option ℕ
  pub bedrooms : Option ℕ

pub record LeadSource : Type 0 where
  pub page : Option Text
  pub referrer : Option Text
  pub utm_source : Option Text
  pub utm_medium : Option Text
  pub utm_campaign : Option Text

pub record CreateLeadRequest : Type 0 where
  pub kind : LeadKind
  pub name : Text
  pub email : Text
  pub phone : Option Text
  pub message : Option Text
  pub whatsapp_opt_in : Option Bool
  pub listing_key : Option Text
  pub preferred_date : Option Text
  pub property_address : Option Text
  pub timeframe : Option Text
  pub requirement : Option Requirement
  pub source : Option LeadSource

abbrev pub points : Bool → ℕ → ℕ
points test n = if test then n else 0

unfoldable pub kind_points : LeadKind → ℕ
kind_points tour_request = 40
kind_points home_valuation = 35
kind_points contact = 20
kind_points saved_search = 10

abbrev pub is_yes : Option Bool → Bool
is_yes none = false
is_yes (some b) = b

-- `input.message && input.message.trim().length > 40`
unfoldable pub is_sentence : Option Text → Bool
is_sentence none = false
is_sentence (some m) = truthy (some m) && ltb 40 (length (trim m))

-- `input.requirement?.maxPrice`, which 0 does not pass.
unfoldable pub has_budget : Option Requirement → Bool
has_budget none = false
has_budget (some r) = elim r.max_price [ none ↦ false | some n ↦ ltb 0 n ]

-- The sum before it is clamped.
unfoldable pub raw_score : CreateLeadRequest → ℕ
unfolding kind_points
raw_score input =
    kind_points input.kind
    + points (truthy input.phone) 25
    + points (is_yes input.whatsapp_opt_in) 10
    + points (truthy input.listing_key) 10
    + points (truthy input.preferred_date) 8
    + points (is_sentence input.message) 5
    + points (has_budget input.requirement) 7

-- lead-scoring.service.ts
unfoldable pub score : CreateLeadRequest → ℕ
unfolding raw_score
score input = max 0 (min 100 (raw_score input))
