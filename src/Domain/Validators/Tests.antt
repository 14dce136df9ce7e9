-- ===== src/Domain/Validators/Tests.antt =====
-- The validators' theorems at a small plan, and runs of the validators on it.
use multi_agent_based_intell.Prelude.{
  ◌≤◌, ◌≡◌, ◌≢◌, refl, ◌⊎◌, true, ◌&&◌, some, List, [], ◌∷◌, Memᴰ, arith, eq_iff, string_eq,
  is_empty, ap, ok,
}
use multi_agent_based_intell.Domain.Travel.{
  CoordinateSystem, wgs84, gcj02, bd09, amount_shape_valid,
}
use multi_agent_based_intell.Domain.TripRequest.{validate_date_range}
use multi_agent_based_intell.Domain.Validators.{ValidationIssue}
use multi_agent_based_intell.Domain.Validators.Budget.{tally_items, tally_days, validate_budget}
use multi_agent_based_intell.Domain.Validators.Budget.Exact.{
  costs_shaped, is_within_budget, validate_budget-Exact,
}
use multi_agent_based_intell.Domain.Validators.Times.{
  days_overlaps, overlaps_after, validate_overlaps,
}
use multi_agent_based_intell.Domain.Validators.Times.Disjoint.{validate_overlaps-IsDisjoint}
use multi_agent_based_intell.Domain.Validators.Opening.{has_system}
use multi_agent_based_intell.Domain.Validators.Report.{
  validate_itinerary, is_consistent_plan, validate_itinerary-Exact,
}
use multi_agent_based_intell.Prelude.Sorting.{sort_by, insert_sorted}
use multi_agent_based_intell.Domain.Validators.Samples.{
  morning, noon, day, plan, request, places, claims, evidence,
}

shaped : costs_shaped plan ≡ true
unfolding amount_shape_valid
shaped = refl

one_day : validate_date_range request ≡ ok 1
unfolding validate_date_range
one_day = refl

budget_clean : validate_budget plan request ≡ some []
unfolding validate_budget tally_days tally_items
budget_clean = refl

overlaps_clean : is_empty (validate_overlaps plan) ≡ true
unfolding validate_overlaps days_overlaps overlaps_after sort_by insert_sorted
overlaps_clean = refl

abbrev first_of : CoordinateSystem → List CoordinateSystem → CoordinateSystem
first_of s ss = s

first_of-chosen :
    (s : CoordinateSystem) (ss : List CoordinateSystem) → has_system (s ∷ ss) (first_of s ss) ≡ true
first_of-chosen wgs84 ss = refl
first_of-chosen gcj02 ss = refl
first_of-chosen bd09 ss = refl

validate_budget-Exact_example :
    (issues : List ValidationIssue) × (validate_budget plan request ≡ some issues)
    × (is_empty issues ≡ is_within_budget plan request)
validate_budget-Exact_example = validate_budget-Exact plan request shaped

morning-not_noon : morning ≢ noon
morning-not_noon e =
    let same = ap (λ item. item.plan_item_id) e in ground (arith, same, eq_iff "morning" "noon")

validate_overlaps-IsDisjoint_example :
    (morning.end_at.instant ≤ noon.start_at.instant)
    ⊎ (noon.end_at.instant ≤ morning.start_at.instant)
validate_overlaps-IsDisjoint_example =
    validate_overlaps-IsDisjoint plan day morning noon overlaps_clean (Memᴰ.head refl)
      (Memᴰ.tail (Memᴰ.head refl)) (Memᴰ.head refl) morning-not_noon

validate_itinerary-Exact_example :
    (issues : List ValidationIssue) × (validate_itinerary first_of plan request places [] claims
        evidence
      ≡ some issues)
    × (is_empty issues ≡ (
        is_consistent_plan first_of plan request places [] claims evidence
        && is_empty (validate_overlaps plan)))
validate_itinerary-Exact_example =
    validate_itinerary-Exact first_of plan request places [] claims evidence first_of-chosen shaped
