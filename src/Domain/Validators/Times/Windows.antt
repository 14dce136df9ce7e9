-- ===== src/Domain/Validators/Times/Windows.antt =====
-- When `validate_time_windows` reports nothing.
use multi_agent_based_intell.Prelude.{
  ℕ, suc, ◌≡◌, refl, Bool, ◌&&◌, List, [], ◌∷◌, arith, leb, nat_beq, all_of, is_empty,
  is_empty-append,
}
use multi_agent_based_intell.Domain.TripRequest.{TripRequest, DailyTimeWindow}
use multi_agent_based_intell.Domain.Itinerary.{ItineraryItem, DailyItinerary, ItineraryVersion}
use multi_agent_based_intell.Domain.Validators.Times.{
  daily_minutes, items_windows, days_windows, validate_time_windows,
}

-- An item on its day's date and inside the request's window.
abbrev pub is_timely : DailyTimeWindow → ℕ → ItineraryItem → Bool
is_timely window date item =
    nat_beq item.start_at.date date
    && nat_beq item.end_at.date date
    && leb window.start item.start_at.time
    && leb item.end_at.time window.finish

abbrev pub day_is_timely : TripRequest → DailyItinerary → Bool
day_is_timely request day =
    all_of (is_timely request.hard_constraints.daily_time_window day.date) day.items
    && leb (daily_minutes day.items) request.hard_constraints.max_activity_minutes_per_day

items-is_timely :
    (window : DailyTimeWindow) (date d i : ℕ) (items : List ItineraryItem)
    → is_empty (items_windows window date d i items) ≡ all_of (is_timely window date) items
unfolding items_windows
items-is_timely window date d i [] = refl
items-is_timely window date d i (item ∷ items) =
    grind (arith, is_empty-append, items-is_timely window date d (suc i) items)

days-is_timely :
    (plan : ItineraryVersion) (request : TripRequest) (d : ℕ) (days : List DailyItinerary)
    → is_empty (days_windows plan request d days) ≡ all_of (day_is_timely request) days
unfolding days_windows
days-is_timely plan request d [] = refl
days-is_timely plan request d (day ∷ days) = grind (
  arith,
  is_empty-append,
  days-is_timely plan request (suc d) days,
  items-is_timely request.hard_constraints.daily_time_window day.date d 0 day.items,
)

-- `validate_time_windows` reports nothing exactly when every item starts and ends on its day's date
-- and inside the request's daily window, and no day has more minutes of activity than the request
-- allows.
pub validate_time_windows-Exact :
    (plan : ItineraryVersion) (request : TripRequest)
    → is_empty (validate_time_windows plan request) ≡ all_of (day_is_timely request) plan.days
unfolding validate_time_windows
validate_time_windows-Exact plan request = days-is_timely plan request 0 plan.days
