-- ===== src/Domain/Validators/Opening/Hours.antt =====
-- When `validate_opening_hours` reports nothing.
use multi_agent_based_intell.Prelude.{
  ℕ, suc, String, ◌≡◌, refl, Bool, true, false, not, ◌&&◌, Option, none, some, List, [], ◌∷◌, arith,
  any_of, all_of, contains, nat_eq, string_eq, is_empty, is_empty-append,
}
use multi_agent_based_intell.Prelude.Dict
use multi_agent_based_intell.Prelude.Dict.{Dict}
use multi_agent_based_intell.Domain.Travel.{Place, OpeningSchedule}
use multi_agent_based_intell.Domain.Itinerary.{ItineraryItem, DailyItinerary, ItineraryVersion}
use multi_agent_based_intell.Domain.Validators.Opening.{
  place_by_id, weekday_of, fits, opening_issues, items_opening, days_opening,
  validate_opening_hours,
}

abbrev schedule_admits : ℕ → ItineraryItem → Option OpeningSchedule → Bool
schedule_admits date item none = false
schedule_admits date item (some schedule) =
    not (contains schedule.special_closures date)
    && any_of (fits (weekday_of date) item) schedule.periods

-- A place that is not listed, or one whose known hours of the date's weekday hold the whole item
-- and that is not closed on the date.
abbrev pub place_admits : ℕ → ItineraryItem → Option Place → Bool
place_admits date item none = true
place_admits date item (some place) = schedule_admits date item place.opening_hours

abbrev pub day_is_open : Dict String Place → DailyItinerary → Bool
day_is_open places day =
    all_of (λ item. place_admits day.date item (Dict.get places item.place_id)) day.items

item-admits :
    (date d i : ℕ) (item : ItineraryItem) (o : Option Place)
    → is_empty (opening_issues date d i item o) ≡ place_admits date item o
item-admits date d i item o = ground arith

items-admits :
    (places : Dict String Place) (date d i : ℕ) (items : List ItineraryItem)
    → is_empty (items_opening places date d i items)
      ≡ all_of (λ item. place_admits date item (Dict.get places item.place_id)) items
unfolding items_opening
items-admits places date d i [] = refl
items-admits places date d i (item ∷ items) = grind (
  arith,
  is_empty-append,
  items-admits places date d (suc i) items,
  item-admits date d i item (Dict.get places item.place_id),
)

days-is_open :
    (places : Dict String Place) (d : ℕ) (days : List DailyItinerary)
    → is_empty (days_opening places d days) ≡ all_of (day_is_open places) days
unfolding days_opening
days-is_open places d [] = refl
days-is_open places d (day ∷ days) = grind (
  arith,
  is_empty-append,
  days-is_open places (suc d) days,
  items-admits places day.date d 0 day.items,
)

-- `validate_opening_hours` reports nothing exactly when every item at a listed place lies within
-- one opening period of its day's weekday, on a date that is no special closure; a listed place
-- without opening hours is always reported.
pub validate_opening_hours-Exact :
    (plan : ItineraryVersion) (places : List Place)
    → is_empty (validate_opening_hours plan places)
      ≡ all_of (day_is_open (place_by_id places)) plan.days
unfolding validate_opening_hours
validate_opening_hours-Exact plan places = days-is_open (place_by_id places) 0 plan.days
