-- ===== src/Domain/Travel.antt =====
-- packages/domain/travel.py: places, routes, opening hours and money.
-- A date is its ordinal (1 for 0001-01-01), a time of day is in microseconds since midnight, and an
-- amount of money is in hundredths, since `decimal_places=2`.
use multi_agent_based_intell.Prelude.{
  ℕ, String, Bool, true, false, not, ◌&&◌, ◌||◌, Option, some, List, is_some, ltb, leb, nat_beq,
  ◌==◌, string_eq, nat_eq, is_unique, is_empty, if◌then◌else◌,
}

pub data CoordinateSystem : Type 0 where
  wgs84 gcj02 bd09 : CoordinateSystem

-- `is`
abbrev pub same_system : CoordinateSystem → CoordinateSystem → Bool
same_system wgs84 wgs84 = true
same_system gcj02 gcj02 = true
same_system bd09 bd09 = true
same_system _ _ = false

pub data CostKind : Type 0 where
  known range unknown : CostKind

abbrev pub is_unknown : CostKind → Bool
is_unknown unknown = true
is_unknown _ = false

abbrev pub is_known : CostKind → Bool
is_known known = true
is_known _ = false

pub record CostEstimate : Type 0 where
  pub kind : CostKind
  pub currency : String
  pub lower : Option ℕ
  pub upper : Option ℕ

abbrev amounts_shape : CostKind → Option ℕ → Option ℕ → Bool
amounts_shape kind (some lower) (some upper) =
    leb lower upper && not (is_known kind && not (nat_beq lower upper))
amounts_shape kind _ _ = false

-- `validate_amount_shape` raises nothing.
unfoldable pub amount_shape_valid : CostEstimate → Bool
amount_shape_valid cost =
    if is_unknown cost.kind
    then not (is_some cost.lower || is_some cost.upper)
    else amounts_shape cost.kind cost.lower cost.upper

pub data Weekday : Type 0 where
  monday tuesday wednesday thursday friday saturday sunday : Weekday

abbrev pub same_weekday : Weekday → Weekday → Bool
same_weekday monday monday = true
same_weekday tuesday tuesday = true
same_weekday wednesday wednesday = true
same_weekday thursday thursday = true
same_weekday friday friday = true
same_weekday saturday saturday = true
same_weekday sunday sunday = true
same_weekday _ _ = false

pub record OpeningPeriod : Type 0 where
  pub weekday : Weekday
  pub opens : ℕ
  pub closes : ℕ

-- `closes_after_opening` raises nothing.
abbrev pub closes_after_opening : OpeningPeriod → Bool
closes_after_opening period = ltb period.opens period.closes

pub record OpeningSchedule : Type 0 where
  pub timezone : String
  pub periods : List OpeningPeriod
  pub special_closures : List ℕ

-- `schedule_is_non_empty_and_unique` raises nothing.
unfoldable pub schedule_valid : OpeningSchedule → Bool
schedule_valid schedule = not (is_empty schedule.periods) && is_unique schedule.special_closures

pub record Place : Type 0 where
  pub place_id : String
  pub canonical_system : CoordinateSystem
  pub opening_hours : Option OpeningSchedule
  pub price : CostEstimate
  pub evidence_ids : List String

-- `evidence_is_present` raises nothing.
unfoldable pub place_valid : Place → Bool
place_valid place = not (is_empty place.evidence_ids) && is_unique place.evidence_ids

pub record Route : Type 0 where
  pub route_id : String
  pub origin_place_id : String
  pub destination_place_id : String
  pub coordinate_system : CoordinateSystem
  pub duration_minutes : ℕ
  pub evidence_ids : List String

-- `endpoints_and_evidence_are_valid` raises nothing.
unfoldable pub route_valid : Route → Bool
route_valid route =
    not (route.origin_place_id == route.destination_place_id)
    && not (is_empty route.evidence_ids)
    && is_unique route.evidence_ids
