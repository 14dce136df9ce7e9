-- ===== src/Domain/Options.antt =====
-- packages/domain/travel.py: weather, lodging and intercity transport. A temperature is in tenths
-- of a degree above -100 °C, an instant in microseconds since the year 1, UTC.
use multi_agent_based_intell.Prelude.{
  ℕ, String, Bool, true, false, not, ◌&&◌, List, ltb, leb, is_empty,
}
use multi_agent_based_intell.Domain.Travel.{CostEstimate}

pub record WeatherForecast : Type 0 where
  pub weather_id : String
  pub provider : String
  pub forecast_date : ℕ
  pub condition : String
  pub temperature_min_c : ℕ
  pub temperature_max_c : ℕ
  pub retrieved_at : ℕ
  pub valid_until : ℕ
  pub evidence_ids : List String

-- `forecast_ranges_are_valid` raises nothing.
abbrev pub forecast_valid : WeatherForecast → Bool
forecast_valid forecast =
    leb forecast.temperature_min_c forecast.temperature_max_c
    && ltb forecast.retrieved_at forecast.valid_until
    && not (is_empty forecast.evidence_ids)

pub record Lodging : Type 0 where
  pub lodging_id : String
  pub provider : String
  pub provider_lodging_id : String
  pub name : String
  pub area : String
  pub nightly_price : CostEstimate
  pub check_in_after : ℕ
  pub check_out_before : ℕ
  pub evidence_ids : List String

-- `evidence_is_present` raises nothing.
abbrev pub lodging_valid : Lodging → Bool
lodging_valid lodging = not (is_empty lodging.evidence_ids)

pub data IntercityMode : Type 0 where
  flight rail coach self_drive : IntercityMode

pub data Availability : Type 0 where
  live reference_only unknown : Availability

-- `availability is Availability.LIVE`
abbrev pub is_live : Availability → Bool
is_live live = true
is_live _ = false

pub record IntercityTransport : Type 0 where
  pub transport_id : String
  pub provider : String
  pub mode : IntercityMode
  pub origin_name : String
  pub destination_name : String
  pub departure_at : ℕ
  pub arrival_at : ℕ
  pub price : CostEstimate
  pub availability : Availability
  pub retrieved_at : ℕ
  pub evidence_ids : List String

-- `chronology_and_evidence_are_valid` raises nothing.
abbrev pub transport_valid : IntercityTransport → Bool
transport_valid option =
    ltb option.departure_at option.arrival_at && not (is_empty option.evidence_ids)
