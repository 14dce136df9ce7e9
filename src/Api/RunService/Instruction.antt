-- ===== src/Api/RunService/Instruction.antt =====
-- `_apply_instruction` of apps/api/run_service.py.
use Prim.Native.String as Text
use multi_agent_based_intell.Prelude.{
  ℕ, zero, suc, ◌+◌, String, Bool, Option, none, some, List, [], ◌∷◌, ◌++◌, leb, ◌==◌, string_eq,
  and_then, if◌then◌else◌,
}
use multi_agent_based_intell.Domain.Travel.{CostEstimate}
use multi_agent_based_intell.Domain.Itinerary.{
  ItineraryItem, DailyItinerary, strategy_value, ItineraryVersion,
}
use multi_agent_based_intell.Domain.Bundle.{PlanComparisonEntry, FinalPlanBundle, comparison_valid}

-- `part in text`
abbrev pub has_part : String → String → Bool
has_part text part = leb (Text.find text part) (Text.len text)

abbrev first_item : List ItineraryItem → Option ItineraryItem
first_item [] = none
first_item (item ∷ items) = some item

abbrev first_day : List DailyItinerary → Option DailyItinerary
first_day [] = none
first_day (day ∷ days) = some day

-- The plan cut to the first item of its first day, and that item's cost.
abbrev pub shortened : ItineraryVersion → Option (ItineraryVersion × CostEstimate)
shortened plan = and_then (first_day plan.days) λ day. and_then (first_item day.items) λ item.
    some (
      record plan {
        days = record day { items = item ∷ []; daily_cost = item.estimated_cost } ∷ [];
        total_cost = item.estimated_cost;
      },
      item.estimated_cost,
    )

abbrev is_relaxed : ItineraryVersion → Bool
is_relaxed plan = strategy_value plan.strategy == "relaxed"

-- The position of the first relaxed plan, or 0.
abbrev pub relaxed_position : ℕ → List ItineraryVersion → ℕ
relaxed_position position [] = 0
relaxed_position position (plan ∷ plans) =
    let rest = relaxed_position (position + 1) plans in if is_relaxed plan then position else rest

-- The change of the plan at a position; `none` for an `IndexError`.
abbrev pub change_at :
    ℕ → List ItineraryVersion → Option (String × CostEstimate × List ItineraryVersion)
change_at position [] = none
change_at zero (plan ∷ plans) =
    and_then (shortened plan) λ cut. some (plan.plan_id, cut.1, cut.0 ∷ plans)
change_at (suc position) (plan ∷ plans) =
    and_then (change_at position plans) λ changed. some (changed.0, changed.1, plan ∷ changed.2)

-- The first entry of the plan, changed; `none` where there is none.
abbrev pub change_entry :
    String → CostEstimate → List PlanComparisonEntry → Option (List PlanComparisonEntry)
change_entry plan_id cost [] = none
change_entry plan_id cost (entry ∷ entries) =
    let rest = change_entry plan_id cost entries in
    if entry.plan_id == plan_id
    then some (
        record entry {
          total_cost = cost;
          activity_count = 1;
          commute_minutes = 0;
          free_minutes = 480;
        }
        ∷ entries)
    else and_then rest λ changed. some (entry ∷ changed)

-- The plans and entries of an instruction that asks for an easier trip.
abbrev pub easier : FinalPlanBundle → Option (List ItineraryVersion × List PlanComparisonEntry)
easier bundle = and_then (change_at (relaxed_position 0 bundle.plans) bundle.plans) λ changed.
    and_then (change_entry changed.0 changed.1 bundle.comparison)
      λ entries. some (changed.2, entries)

abbrev pub changed_bundle :
    FinalPlanBundle
    → String
    → ℕ
    → List ItineraryVersion × List PlanComparisonEntry
    → Option FinalPlanBundle
changed_bundle bundle instruction generated_at (plans, entries) =
    if comparison_valid entries
    then some (record bundle {
      plans = plans;
      comparison = entries;
      assumptions = bundle.assumptions ++ (Text.◌++◌ "用户修改：" instruction) ∷ [];
      collaboration_summary = record bundle.collaboration_summary {
        revision_rounds = bundle.collaboration_summary.revision_rounds + 1;
      };
      generated_at = generated_at;
    })
    else none

-- `none` stands for what it raises.
unfoldable pub apply_instruction : FinalPlanBundle → String → ℕ → Option FinalPlanBundle
apply_instruction bundle instruction generated_at =
    and_then
      (if has_part instruction "轻松" then easier bundle else some (bundle.plans, bundle.comparison))
      (changed_bundle bundle instruction generated_at)
