-- ===== src/Domain/Validators/Opening.antt =====
-- packages/domain/validators.py: `validate_opening_hours` and `validate_coordinates`.
pub mod Hours
pub mod Systems
use multi_agent_based_intell.Prelude.{
  ℕ, zero, suc, ◌+◌, ◌%◌, String, Bool, not, ◌&&◌, ◌||◌, Option, none, some, List, [], ◌∷◌, ◌++◌,
  map, leb, ltb, length, any_of, contains, string_eq, nat_eq, if◌then◌else◌,
}
use multi_agent_based_intell.Prelude.Dict
use multi_agent_based_intell.Prelude.Dict.{Dict}
use multi_agent_based_intell.Domain.Travel.{
  CoordinateSystem, same_system, Weekday, monday, tuesday, wednesday, thursday, friday, saturday,
  sunday, same_weekday, OpeningPeriod, OpeningSchedule, Place, Route,
}
use multi_agent_based_intell.Domain.Itinerary.{ItineraryItem, DailyItinerary, ItineraryVersion}
use multi_agent_based_intell.Domain.Validators.{
  ValidationIssue, opening_hours_conflict, opening_hours_unknown, coordinate_system_mismatch, field,
  item_of, issue, report_if,
}
use multi_agent_based_intell.Domain.Validators.Times.{item_path}

unfoldable pub put_places : Dict String Place → List Place → Dict String Place
put_places found [] = found
put_places found (place ∷ places) = put_places (Dict.put found place.place_id place) places

-- `{place.place_id: place for place in places}`
abbrev pub place_by_id : List Place → Dict String Place
place_by_id places = put_places [] places

-- `weekdays[index]`, for an index below 7.
abbrev nth_weekday : List Weekday → ℕ → Weekday
nth_weekday [] index = sunday
nth_weekday (weekday ∷ weekdays) zero = weekday
nth_weekday (weekday ∷ weekdays) (suc index) = nth_weekday weekdays index

abbrev weekdays : List Weekday
weekdays = monday ∷ tuesday ∷ wednesday ∷ thursday ∷ friday ∷ saturday ∷ sunday ∷ []

-- `weekdays[day.date.weekday()]`; the ordinal 1 is a Monday.
abbrev pub weekday_of : ℕ → Weekday
weekday_of date = nth_weekday weekdays ((date + 6) % 7)

abbrev pub fits : Weekday → ItineraryItem → OpeningPeriod → Bool
fits weekday item period =
    same_weekday period.weekday weekday
    && leb period.opens item.start_at.time
    && leb item.end_at.time period.closes

abbrev schedule_issues :
    ℕ → ℕ → ℕ → ItineraryItem → Place → Option OpeningSchedule → List ValidationIssue
schedule_issues date day_index item_index item place none =
    issue opening_hours_unknown "place opening hours are unknown" (item_path day_index item_index)
      (item.plan_item_id ∷ place.place_id ∷ [])
    ∷ []
schedule_issues date day_index item_index item place (some schedule) =
    report_if
      (contains schedule.special_closures date
        || not (any_of (fits (weekday_of date) item) schedule.periods))
      (issue opening_hours_conflict "activity is scheduled while the place is closed"
        (item_path day_index item_index) (item.plan_item_id ∷ place.place_id ∷ []))
      []

abbrev pub opening_issues : ℕ → ℕ → ℕ → ItineraryItem → Option Place → List ValidationIssue
opening_issues date day_index item_index item none = []
opening_issues date day_index item_index item (some place) =
    schedule_issues date day_index item_index item place place.opening_hours

unfoldable pub items_opening :
    Dict String Place → ℕ → ℕ → ℕ → List ItineraryItem → List ValidationIssue
items_opening places date day_index item_index [] = []
items_opening places date day_index item_index (item ∷ items) =
    opening_issues date day_index item_index item (Dict.get places item.place_id)
    ++ items_opening places date day_index (suc item_index) items

unfoldable pub days_opening : Dict String Place → ℕ → List DailyItinerary → List ValidationIssue
unfolding items_opening
days_opening places day_index [] = []
days_opening places day_index (day ∷ days) =
    items_opening places day.date day_index 0 day.items ++ days_opening places (suc day_index) days

unfoldable pub validate_opening_hours : ItineraryVersion → List Place → List ValidationIssue
unfolding days_opening
validate_opening_hours plan places = days_opening (place_by_id places) 0 plan.days

abbrev pub has_system : List CoordinateSystem → CoordinateSystem → Bool
has_system systems system = any_of (same_system system) systems

-- `{place.canonical_coordinate.system for place in places}`, each system once.
unfoldable pub systems_of : List Place → List CoordinateSystem
systems_of [] = []
systems_of (place ∷ places) =
    let rest = systems_of places in
    if has_system rest place.canonical_system then rest else place.canonical_system ∷ rest

unfoldable pub route_issues : CoordinateSystem → ℕ → List Route → List ValidationIssue
route_issues canonical_system route_index [] = []
route_issues canonical_system route_index (route ∷ routes) =
    report_if (not (same_system route.coordinate_system canonical_system))
      (issue coordinate_system_mismatch "route coordinate system differs from canonical places"
        (item_of "routes" route_index ∷ field "coordinate_system" ∷ []) (route.route_id ∷ []))
      []
    ++ route_issues canonical_system (suc route_index) routes

-- The element that `next(iter(systems))` gives: an argument, as the order of a set is unspecified.
module _ (next_of : CoordinateSystem → List CoordinateSystem → CoordinateSystem) where
  abbrev pub routes_checked : List CoordinateSystem → List Route → List ValidationIssue
  routes_checked [] routes = []
  routes_checked (system ∷ systems) routes = route_issues (next_of system systems) 0 routes

  unfoldable pub validate_coordinates : List Place → List Route → List ValidationIssue
  validate_coordinates places routes =
      report_if (ltb 1 (length (systems_of places)))
        (issue coordinate_system_mismatch
          "canonical place coordinates use more than one coordinate system" (field "places" ∷ [])
          (map (λ place. place.place_id) places))
        []
      ++ routes_checked (systems_of places) routes
