-- ===== src/Domain/Validators/Times.antt =====
-- packages/domain/validators.py: `validate_time_windows` and `validate_overlaps`. A loop's issues
-- are those of its rounds, one after the other.
pub mod Windows
pub mod Disjoint
use multi_agent_based_intell.Prelude.{
  ℕ, suc, ◌+◌, ◌-◌, ◌/◌, Bool, not, ◌||◌, List, [], ◌∷◌, ◌++◌, ltb, leb, nat_beq,
}
use multi_agent_based_intell.Prelude.Sorting.{sort_by}
use multi_agent_based_intell.Domain.TripRequest.{TripRequest, DailyTimeWindow}
use multi_agent_based_intell.Domain.Itinerary.{ItineraryItem, DailyItinerary, ItineraryVersion}
use multi_agent_based_intell.Domain.Validators.{
  ValidationIssue, PathStep, item_date_mismatch, item_outside_daily_window, activity_time_exceeded,
  item_overlap, field, item_of, issue, report_if,
}

abbrev pub item_path : ℕ → ℕ → List PathStep
item_path day_index item_index = item_of "days" day_index ∷ item_of "items" item_index ∷ []

abbrev pub on_date : ℕ → ItineraryItem → Bool
on_date date item =
    not (not (nat_beq item.start_at.date date) || not (nat_beq item.end_at.date date))

abbrev pub in_window : DailyTimeWindow → ItineraryItem → Bool
in_window window item =
    not (ltb item.start_at.time window.start || ltb window.finish item.end_at.time)

-- `int((item.end_at - item.start_at).total_seconds() // 60)`, where an item ends after it starts.
abbrev pub minutes : ItineraryItem → ℕ
minutes item = (item.end_at.instant - item.start_at.instant) / 60000000

-- The issues of one item.
abbrev window_issues : DailyTimeWindow → ℕ → ℕ → ℕ → ItineraryItem → List ValidationIssue
window_issues window date day_index item_index item =
    report_if (not (in_window window item))
      (issue item_outside_daily_window "activity falls outside the request daily time window"
        (item_path day_index item_index) (item.plan_item_id ∷ []))
      (report_if (not (on_date date item))
        (issue item_date_mismatch "activity timestamps must remain on their declared itinerary date"
          (item_path day_index item_index) (item.plan_item_id ∷ []))
        [])

unfoldable pub items_windows :
    DailyTimeWindow → ℕ → ℕ → ℕ → List ItineraryItem → List ValidationIssue
items_windows window date day_index item_index [] = []
items_windows window date day_index item_index (item ∷ items) =
    window_issues window date day_index item_index item
    ++ items_windows window date day_index (suc item_index) items

-- `daily_minutes` after the loop.
abbrev pub daily_minutes : List ItineraryItem → ℕ
daily_minutes [] = 0
daily_minutes (item ∷ items) = minutes item + daily_minutes items

unfoldable pub days_windows :
    ItineraryVersion → TripRequest → ℕ → List DailyItinerary → List ValidationIssue
days_windows plan request day_index [] = []
days_windows plan request day_index (day ∷ days) =
    report_if (ltb request.hard_constraints.max_activity_minutes_per_day (daily_minutes day.items))
      (issue activity_time_exceeded "scheduled activity minutes exceed the daily maximum"
        (item_of "days" day_index ∷ field "items" ∷ []) (plan.plan_id ∷ []))
      (items_windows request.hard_constraints.daily_time_window day.date day_index 0 day.items)
    ++ days_windows plan request (suc day_index) days

unfoldable pub validate_time_windows : ItineraryVersion → TripRequest → List ValidationIssue
validate_time_windows plan request = days_windows plan request 0 plan.days

-- The order of `sorted(day.items, key=lambda item: item.start_at)`.
abbrev pub starts_before : ItineraryItem → ItineraryItem → Bool
starts_before a b = leb a.start_at.instant b.start_at.instant

-- `for previous, current in zip(ordered, ordered[1:])`
unfoldable pub overlaps_after : ℕ → ItineraryItem → List ItineraryItem → List ValidationIssue
overlaps_after day_index previous [] = []
overlaps_after day_index previous (current ∷ rest) =
    report_if (ltb current.start_at.instant previous.end_at.instant)
      (issue item_overlap "activity overlaps the preceding scheduled activity"
        (item_of "days" day_index ∷ field "items" ∷ [])
        (previous.plan_item_id ∷ current.plan_item_id ∷ []))
      []
    ++ overlaps_after day_index current rest

abbrev pub ordered_overlaps : ℕ → List ItineraryItem → List ValidationIssue
ordered_overlaps day_index [] = []
ordered_overlaps day_index (item ∷ items) = overlaps_after day_index item items

unfoldable pub days_overlaps : ℕ → List DailyItinerary → List ValidationIssue
days_overlaps day_index [] = []
days_overlaps day_index (day ∷ days) =
    ordered_overlaps day_index (sort_by starts_before day.items)
    ++ days_overlaps (suc day_index) days

unfoldable pub validate_overlaps : ItineraryVersion → List ValidationIssue
validate_overlaps plan = days_overlaps 0 plan.days
