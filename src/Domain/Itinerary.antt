-- ===== src/Domain/Itinerary.antt =====
-- packages/domain/itinerary.py: itinerary items, days and plans.
use multi_agent_based_intell.Prelude.{
  ℕ, String, Bool, not, ◌&&◌, Option, List, [], ◌∷◌, ◌++◌, map, ◌||◌, is_some, ltb, string_eq,
  nat_eq, is_unique, is_empty,
}
use multi_agent_based_intell.Domain.Travel.{CostEstimate}

-- An aware `datetime`: its instant, which comparisons read, in microseconds since the year 1, UTC,
-- and its local date (an ordinal) and time of day (in microseconds).
pub record Moment : Type 0 where
  pub instant : ℕ
  pub date : ℕ
  pub time : ℕ

pub record ItineraryItem : Type 0 where
  pub plan_item_id : String
  pub start_at : Moment
  pub end_at : Moment
  pub place_id : String
  pub estimated_cost : CostEstimate
  pub route_from_previous_id : Option String
  pub travel_mode_from_previous : Option String
  pub travel_minutes_from_previous : Option ℕ
  pub claim_ids : List String
  pub evidence_ids : List String

-- `chronology_and_route_shape_are_valid` raises nothing.
unfoldable pub item_valid : ItineraryItem → Bool
item_valid item =
    let routed = is_some item.route_from_previous_id in
    let moded = is_some item.travel_mode_from_previous in
    let timed = is_some item.travel_minutes_from_previous in
    ltb item.start_at.instant item.end_at.instant
    && not (not routed && (moded || timed))
    && not (routed && (not moded || not timed))
    && not (is_empty item.evidence_ids)

pub record DailyItinerary : Type 0 where
  pub date : ℕ
  pub items : List ItineraryItem
  pub daily_cost : CostEstimate

abbrev pub item_ids : List ItineraryItem → List String
item_ids items = map (λ item. item.plan_item_id) items

-- `item_identifiers_are_unique` raises nothing.
unfoldable pub day_valid : DailyItinerary → Bool
day_valid day = is_unique (item_ids day.items)

pub data PlanStrategy : Type 0 where
  balanced economy relaxed : PlanStrategy

-- `strategy.value`
abbrev pub strategy_value : PlanStrategy → String
strategy_value balanced = "balanced"
strategy_value economy = "economy"
strategy_value relaxed = "relaxed"

-- Scores between 0 and 1, in ten-thousandths.
pub record ScoreBreakdown : Type 0 where
  pub feasibility : ℕ
  pub preference_match : ℕ
  pub budget_fit : ℕ
  pub risk_resilience : ℕ
  pub evidence_quality : ℕ

pub record ItineraryVersion : Type 0 where
  pub plan_id : String
  pub title : String
  pub strategy : PlanStrategy
  pub days : List DailyItinerary
  pub total_cost : CostEstimate
  pub score_breakdown : ScoreBreakdown
  pub is_executable : Bool
  pub unresolved_risks : List String

unfoldable pub all_items : List DailyItinerary → List ItineraryItem
all_items [] = []
all_items (day ∷ days) = day.items ++ all_items days

-- `dates_and_items_are_unique` raises nothing.
unfoldable pub plan_valid : ItineraryVersion → Bool
plan_valid plan =
    is_unique (map (λ day. day.date) plan.days)
    && is_unique (item_ids (all_items plan.days))
    && not (plan.is_executable && not (is_empty plan.unresolved_risks))
