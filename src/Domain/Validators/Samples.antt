-- ===== src/Domain/Validators/Samples.antt =====
-- A plan of one day with its request, place, claim and evidence, on which tests run.
use multi_agent_based_intell.Prelude.{ℕ, ◌*◌, String, true, none, some, List, [], ◌∷◌}
use multi_agent_based_intell.Domain.Travel.{wgs84, CostEstimate, known, monday, Place}
use multi_agent_based_intell.Domain.Messaging.{
  Freshness, StoragePolicy, ClaimStatus, Claim, Evidence,
}
use multi_agent_based_intell.Domain.TripRequest.{BudgetPolicy, TripRequest}
use multi_agent_based_intell.Domain.Itinerary.{
  PlanStrategy, Moment, ItineraryItem, DailyItinerary, ItineraryVersion,
}

abbrev pub cost : ℕ → CostEstimate
cost amount = record { kind = known; currency = "CNY"; lower = some amount; upper = some amount }

abbrev pub moment : ℕ → Moment
moment minute = record { instant = minute * 60000000; date = 1; time = minute * 60000000 }

abbrev pub visit : String → ℕ → ℕ → ItineraryItem
visit plan_item_id start finish = record {
  plan_item_id = plan_item_id;
  start_at = moment start;
  end_at = moment finish;
  place_id = "museum";
  estimated_cost = cost 500;
  route_from_previous_id = none;
  travel_mode_from_previous = none;
  travel_minutes_from_previous = none;
  claim_ids = "claim" ∷ [];
  evidence_ids = "evidence" ∷ [];
}

abbrev pub morning : ItineraryItem
morning = visit "morning" 600 660

abbrev pub noon : ItineraryItem
noon = visit "noon" 660 720

abbrev pub day : DailyItinerary
day = record { date = 1; items = noon ∷ morning ∷ []; daily_cost = cost 1000 }

abbrev pub plan : ItineraryVersion
plan = record {
  plan_id = "plan";
  title = "A day";
  strategy = PlanStrategy.balanced;
  score_breakdown = record {
    feasibility = 10000;
    preference_match = 8000;
    budget_fit = 10000;
    risk_resilience = 8000;
    evidence_quality = 10000;
  };
  days = day ∷ [];
  total_cost = cost 1000;
  is_executable = true;
  unresolved_risks = [];
}

abbrev pub request : TripRequest
request = record {
  request_id = "request";
  origin = "上海";
  destination = "北京";
  start_date = 1;
  end_date = none;
  days = some 1;
  budget = record {
    total = 2000;
    currency = "CNY";
    policy = BudgetPolicy.hard;
    flexibility_percent = 0;
  };
  hard_constraints = record {
    daily_time_window = record { start = 32400000000; finish = 75600000000 };
    must_visit = [];
    excluded_places = [];
    fixed_appointments = [];
    max_activity_minutes_per_day = 600;
  };
}

abbrev pub museum : Place
museum = record {
  place_id = "museum";
  canonical_system = wgs84;
  opening_hours = some (record {
    timezone = "UTC";
    periods = record { weekday = monday; opens = 32400000000; closes = 75600000000 } ∷ [];
    special_closures = [];
  });
  price = cost 500;
  evidence_ids = "evidence" ∷ [];
}

abbrev pub places : List Place
places = museum ∷ []

abbrev pub claims : List Claim
claims =
    record {
      claim_id = "claim";
      status = ClaimStatus.verified;
      evidence_ids = "evidence" ∷ [];
      required_hard_constraint = true;
    }
    ∷ []

abbrev pub evidence : List Evidence
evidence =
    record {
      evidence_id = "evidence";
      source_name = "Museum";
      source_url_or_provider_id = "museum";
      provider = "provider";
      retrieved_at = 1;
      valid_until = none;
      field_paths = "opening_hours" ∷ [];
      freshness = Freshness.fresh;
      confidence = 9000;
      storage_policy = StoragePolicy.ids_and_metadata;
    }
    ∷ []
