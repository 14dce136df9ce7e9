-- ===== src/Domain/Validators/Budget/Blocking.antt =====
-- Under a hard budget policy every finding of `validate_budget` blocks the plan.
use multi_agent_based_intell.Prelude.{
  ℕ, suc, String, ◌≡◌, refl, Bool, true, ◌&&◌, some, List, [], ◌∷◌, ◌++◌, arith, string_eq,
  is_empty, all_of, Option-cases, inl, inr,
}
use multi_agent_based_intell.Domain.TripRequest.{TripRequest, is_hard}
use multi_agent_based_intell.Domain.Itinerary.{ItineraryItem, DailyItinerary, ItineraryVersion}
use multi_agent_based_intell.Domain.Validators.{ValidationIssue, passed, is_error}
use multi_agent_based_intell.Domain.Validators.Budget.{
  Tally, tally_item, tally_items, tally_days, close_plan, close_day, fresh_tally, validate_budget,
}
use multi_agent_based_intell.Domain.Validators.Budget.Exact.{
  costs_shaped, is_within_budget, validate_budget-Exact,
}

all_of-append :
    (p : ValidationIssue → Bool) (xs ys : List ValidationIssue)
    → all_of p (xs ++ ys) ≡ (all_of p xs && all_of p ys)
all_of-append p [] ys = refl
all_of-append p (x ∷ xs) ys = ground (arith, all_of-append p xs ys)

items-errors :
    (c : String) (d i : ℕ) (items : List ItineraryItem) (t u : Tally)
    → all_of is_error t.issues ≡ true
    → tally_items c d i items t ≡ some u
    → all_of is_error u.issues ≡ true
unfolding tally_items
items-errors c d i [] t u h e = ground arith
items-errors c d i (item ∷ items) t u h e = elim (Option-cases (tally_item c d i item t)) [
  | inl absent ↦ absurd (ground arith)
  | inr (v, found) ↦
      items-errors c d (suc i) items v u (grind (arith, all_of-append)) (ground arith)
]

days-errors :
    (c plan_id : String) (d : ℕ) (days : List DailyItinerary) (t u : Tally)
    → all_of is_error t.issues ≡ true
    → tally_days c plan_id d days t ≡ some u
    → all_of is_error u.issues ≡ true
unfolding tally_days
days-errors c plan_id d [] t u h e = ground arith
days-errors c plan_id d (day ∷ days) t u h e =
    elim (Option-cases (tally_items c d 0 day.items (fresh_tally t.issues))) [
      | inl absent ↦ absurd (ground arith)
      | inr (v, found) ↦
          let es = items-errors c d 0 day.items (fresh_tally t.issues) v h found in
          days-errors c plan_id (suc d) days (close_day c plan_id d day v t) u
            (grind (arith, all_of-append)) (ground arith)
    ]

passed-of-errors :
    (issues : List ValidationIssue)
    → all_of is_error issues ≡ true
    → passed issues ≡ is_empty issues
unfolding passed
passed-of-errors [] h = refl
passed-of-errors (i ∷ issues) h = ground arith

plan-errors :
    (plan : ItineraryVersion) (request : TripRequest) (u : Tally)
    → is_hard request.budget.policy ≡ true
    → all_of is_error u.issues ≡ true
    → all_of is_error (close_plan plan request u) ≡ true
plan-errors plan request u hard h = grind (arith, all_of-append)

budget-errors :
    (plan : ItineraryVersion) (request : TripRequest) (issues : List ValidationIssue)
    → is_hard request.budget.policy ≡ true
    → validate_budget plan request ≡ some issues
    → all_of is_error issues ≡ true
unfolding validate_budget
budget-errors plan request issues hard e =
    elim (Option-cases
      (tally_days request.budget.currency plan.plan_id 0 plan.days (fresh_tally []))) [
        | inl absent ↦ absurd (ground arith)
        | inr (u, found) ↦
            let es =
              days-errors request.budget.currency plan.plan_id 0 plan.days (fresh_tally []) u refl
                found in
            ground (arith, plan-errors plan request u hard es)
      ]

-- Under a hard budget policy, and for costs that keep to the contract of `CostEstimate`, a plan
-- passes the budget validator exactly when its costs are known, add up, and stay in the budget.
pub hard_budget_blocks :
    (plan : ItineraryVersion) (request : TripRequest) (issues : List ValidationIssue)
    → costs_shaped plan ≡ true
    → is_hard request.budget.policy ≡ true
    → validate_budget plan request ≡ some issues
    → passed issues ≡ is_within_budget plan request
hard_budget_blocks plan request issues h hard e =
    let (found, e', exact) = validate_budget-Exact plan request h in
    ground (arith, passed-of-errors issues (budget-errors plan request issues hard e))
