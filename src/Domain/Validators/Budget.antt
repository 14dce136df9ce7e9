-- ===== src/Domain/Validators/Budget.antt =====
-- packages/domain/validators.py: `validate_budget`. Its result is `none` for the failed assertion.
pub mod Exact
pub mod Blocking
use multi_agent_based_intell.Prelude.{
  ℕ, suc, ◌+◌, String, Bool, true, false, not, ◌&&◌, ◌||◌, Option, none, some, List, [], ◌∷◌, ltb,
  nat_beq, ◌==◌, string_eq, if◌then◌else◌, and_then,
}
use multi_agent_based_intell.Domain.Travel.{CostEstimate, is_unknown}
use multi_agent_based_intell.Domain.TripRequest.{TripRequest, BudgetPolicy, is_hard}
use multi_agent_based_intell.Domain.Itinerary.{ItineraryItem, DailyItinerary, ItineraryVersion}
use multi_agent_based_intell.Domain.Validators.{
  ValidationIssue, ValidationSeverity, error, warning, budget_exceeded, budget_unverifiable,
  budget_total_mismatch, currency_mismatch, field, item_of, issue, report_if,
}

-- The variables of the loops: the issues so far, two totals, and whether a cost is unknown.
pub record Tally : Type 0 where
  pub issues : List ValidationIssue
  pub lower : ℕ
  pub upper : ℕ
  pub has_unknown : Bool

abbrev pub add_amounts : Option ℕ → Option ℕ → Tally → Option Tally
add_amounts (some lower) (some upper) tally = some (record {
  issues = tally.issues;
  lower = tally.lower + lower;
  upper = tally.upper + upper;
  has_unknown = tally.has_unknown;
})
add_amounts _ _ tally = none

abbrev pub add_cost : CostEstimate → Tally → Option Tally
add_cost cost tally =
    if is_unknown cost.kind
    then some (record {
      issues = tally.issues;
      lower = tally.lower;
      upper = tally.upper;
      has_unknown = true;
    })
    else add_amounts cost.lower cost.upper tally

abbrev pub with_issues : List ValidationIssue → Tally → Tally
with_issues issues tally = record {
  issues = issues;
  lower = tally.lower;
  upper = tally.upper;
  has_unknown = tally.has_unknown;
}

-- The body of the loop over a day's items.
abbrev pub tally_item : String → ℕ → ℕ → ItineraryItem → Tally → Option Tally
tally_item currency day_index item_index item tally = add_cost item.estimated_cost (
    with_issues
      (report_if (not (item.estimated_cost.currency == currency))
        (issue currency_mismatch "item currency differs from the request budget currency"
          (item_of "days" day_index ∷ item_of "items" item_index ∷ field "estimated_cost" ∷ [])
          (item.plan_item_id ∷ []))
        tally.issues)
      tally)

unfoldable pub tally_items : String → ℕ → ℕ → List ItineraryItem → Tally → Option Tally
tally_items currency day_index item_index [] tally = some tally
tally_items currency day_index item_index (item ∷ items) tally =
    and_then (tally_item currency day_index item_index item tally)
      (tally_items currency day_index (suc item_index) items)

-- `declared == total` of an optional amount and a number.
abbrev pub equals : Option ℕ → ℕ → Bool
equals none total = false
equals (some amount) total = nat_beq amount total

abbrev pub total_mismatch : CostEstimate → ℕ → ℕ → Bool
total_mismatch cost lower upper = not (equals cost.lower lower) || not (equals cost.upper upper)

-- The rest of the loop over the days, for a day of total `day_tally`.
abbrev pub close_day : String → String → ℕ → DailyItinerary → Tally → Tally → Tally
close_day currency plan_id day_index day day_tally tally = record {
  issues =
      report_if
        (not day_tally.has_unknown && total_mismatch day.daily_cost day_tally.lower day_tally.upper)
        (issue budget_total_mismatch "declared daily cost does not equal the sum of its items"
          (item_of "days" day_index ∷ field "daily_cost" ∷ []) (plan_id ∷ []))
        (report_if (not (day.daily_cost.currency == currency))
          (issue currency_mismatch "daily total currency differs from the request budget currency"
            (item_of "days" day_index ∷ field "daily_cost" ∷ []) (plan_id ∷ []))
          day_tally.issues);
  lower = tally.lower + day_tally.lower;
  upper = tally.upper + day_tally.upper;
  has_unknown = tally.has_unknown || day_tally.has_unknown;
}

abbrev pub fresh_tally : List ValidationIssue → Tally
fresh_tally issues = record { issues = issues; lower = 0; upper = 0; has_unknown = false }

unfoldable pub tally_days : String → String → ℕ → List DailyItinerary → Tally → Option Tally
unfolding tally_items
tally_days currency plan_id day_index [] tally = some tally
tally_days currency plan_id day_index (day ∷ days) tally =
    and_then (tally_items currency day_index 0 day.items (fresh_tally tally.issues)) (λ day_tally.
      tally_days currency plan_id (suc day_index) days
        (close_day currency plan_id day_index day day_tally tally))

abbrev pub policy_severity : BudgetPolicy → ValidationSeverity
policy_severity policy = if is_hard policy then error else warning

-- What follows the loops.
abbrev pub close_plan : ItineraryVersion → TripRequest → Tally → List ValidationIssue
close_plan plan request tally =
    let summed =
      report_if (not tally.has_unknown && total_mismatch plan.total_cost tally.lower tally.upper)
        (issue budget_total_mismatch "declared plan cost does not equal the sum of its days"
          (field "total_cost" ∷ []) (plan.plan_id ∷ []))
        (report_if (not (plan.total_cost.currency == request.budget.currency))
          (issue currency_mismatch "plan total currency differs from the request budget currency"
            (field "total_cost" ∷ []) (plan.plan_id ∷ []))
          tally.issues) in
    if tally.has_unknown
    then report_if true
        (record {
          code = budget_unverifiable;
          severity = policy_severity request.budget.policy;
          message = "unknown item cost prevents a complete budget proof";
          path = field "total_cost" ∷ [];
          related_ids = plan.plan_id ∷ [];
        })
        summed
    else report_if (ltb request.budget.total tally.upper)
        (record {
          code = budget_exceeded;
          severity = policy_severity request.budget.policy;
          message = "maximum calculated plan cost exceeds the request budget";
          path = field "total_cost" ∷ [];
          related_ids = plan.plan_id ∷ [];
        })
        summed

abbrev pub close_found :
    ItineraryVersion → TripRequest → Option Tally → Option (List ValidationIssue)
close_found plan request none = none
close_found plan request (some tally) = some (close_plan plan request tally)

unfoldable pub validate_budget : ItineraryVersion → TripRequest → Option (List ValidationIssue)
unfolding tally_days
validate_budget plan request =
    close_found plan request
      (tally_days request.budget.currency plan.plan_id 0 plan.days (fresh_tally []))
