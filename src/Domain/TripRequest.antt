-- ===== src/Domain/TripRequest.antt =====
-- packages/domain/trip_request.py: the request that a plan is validated against. A date is its
-- ordinal, a time of day is in microseconds since midnight, money is in hundredths.
use multi_agent_based_intell.Prelude.{
  ℕ, ◌+◌, ◌-◌, String, Bool, true, false, not, ◌&&◌, ◌||◌, Option, none, some, List, is_some, ltb,
  leb, nat_beq, string_eq, contains, is_unique, any_of, all_of, Result, ok, err, if◌then◌else◌,
}

pub data BudgetPolicy : Type 0 where
  hard flexible : BudgetPolicy

abbrev pub is_hard : BudgetPolicy → Bool
is_hard hard = true
is_hard flexible = false

pub record TripBudget : Type 0 where
  pub total : ℕ
  pub currency : String
  pub policy : BudgetPolicy
  pub flexibility_percent : ℕ

-- `hard_budget_has_no_flexibility` raises nothing.
unfoldable pub budget_valid : TripBudget → Bool
budget_valid budget = not (is_hard budget.policy && not (nat_beq budget.flexibility_percent 0))

pub record DailyTimeWindow : Type 0 where
  pub start : ℕ
  pub finish : ℕ

-- `end_follows_start` raises nothing.
abbrev pub window_valid : DailyTimeWindow → Bool
window_valid window = ltb window.start window.finish

pub record FixedAppointment : Type 0 where
  pub appointment_id : String
  pub date : ℕ
  pub start : ℕ
  pub finish : ℕ

abbrev pub appointment_valid : FixedAppointment → Bool
appointment_valid appointment = ltb appointment.start appointment.finish

pub record HardConstraints : Type 0 where
  pub daily_time_window : DailyTimeWindow
  pub must_visit : List String
  pub excluded_places : List String
  pub fixed_appointments : List FixedAppointment
  pub max_activity_minutes_per_day : ℕ

-- `lists_are_unique_and_compatible` raises nothing.
unfoldable pub constraints_valid : HardConstraints → Bool
constraints_valid c =
    is_unique c.must_visit
    && is_unique c.excluded_places
    && not (any_of (contains c.excluded_places) c.must_visit)

pub record TripRequest : Type 0 where
  pub request_id : String
  pub origin : String
  pub destination : String
  pub start_date : ℕ
  pub end_date : Option ℕ
  pub days : Option ℕ
  pub budget : TripBudget
  pub hard_constraints : HardConstraints

-- One constructor for each `raise` of `validate_date_range_and_appointments`.
pub data RequestError : Type 0 where
  no_end duration_out_of_range days_mismatch appointment_outside : RequestError

-- `self.start_date + timedelta(days=self.days - 1)`, where `Field(ge=1)` holds of `days`.
abbrev end_of_days : ℕ → Option ℕ → Option ℕ
end_of_days start none = none
end_of_days start (some days) = some (start + (days - 1))

-- `resolved_end_date`, with `none` for the failed assertion.
unfoldable pub resolved_end_date : TripRequest → Option ℕ
resolved_end_date request =
    if is_some request.end_date
    then request.end_date
    else end_of_days request.start_date request.days

abbrev days_differ : Option ℕ → ℕ → Bool
days_differ none duration = false
days_differ (some days) duration = not (nat_beq days duration)

abbrev pub falls_inside : ℕ → ℕ → FixedAppointment → Bool
falls_inside first last appointment = leb first appointment.date && leb appointment.date last

-- The checks once the end is resolved. `(resolved_end - start_date).days + 1` is negative or zero
-- exactly when the end comes before the start, and `last + 1 - start` is then 0.
abbrev check_range : TripRequest → Option ℕ → Result RequestError ℕ
check_range request none = err no_end
check_range request (some last) =
    let duration = (last + 1) - request.start_date in
    if ltb duration 1 || ltb 7 duration
    then err duration_out_of_range
    else if days_differ request.days duration
    then err days_mismatch
    else if not
        (all_of (falls_inside request.start_date last) request.hard_constraints.fixed_appointments)
    then err appointment_outside
    else ok duration

-- `validate_date_range_and_appointments`, with the duration in place of the request.
unfoldable pub validate_date_range : TripRequest → Result RequestError ℕ
unfolding resolved_end_date
validate_date_range request = check_range request (resolved_end_date request)

abbrev days_between : ℕ → Option ℕ → Option ℕ
days_between first none = none
days_between first (some last) = some ((last + 1) - first)

-- `duration_days`, of a request whose end does not come before its start.
unfoldable pub duration_days : TripRequest → Option ℕ
unfolding resolved_end_date
duration_days request = days_between request.start_date (resolved_end_date request)
