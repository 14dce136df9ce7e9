-- ===== src/Workflow/FinalAggregator.antt =====
-- packages/workflow/final_aggregator.py: what is checked and merged before a plan is final. The
-- rendering of the bundle is not modelled. The rounding of a share and the choice of an element of
-- a set of coordinate systems are arguments.
pub mod Merging
pub mod Checked
mod Tests
use multi_agent_based_intell.Prelude.{
  ℕ, zero, suc, ◌+◌, ◌-◌, ◌*◌, ◌/◌, ◌%◌, String, Bool, true, false, not, ◌&&◌, Option, none, some,
  List, [], ◌∷◌, ◌++◌, map, Result, ok, err, ◌>>=◌, ◌>>◌, nat_beq, ltb, ◌==◌, string_eq, contains,
  length, any_of, all_of, select, is_empty, if◌then◌else◌,
}
use multi_agent_based_intell.Prelude.Dict
use multi_agent_based_intell.Prelude.Dict.{Dict, values}
use multi_agent_based_intell.Prelude.Sorting.{sort_by}
use multi_agent_based_intell.Prelude.Strings.{str_le}
use multi_agent_based_intell.Domain.Travel.{CoordinateSystem, Route}
use multi_agent_based_intell.Domain.Messaging.{Evidence, Freshness, freshness_value}
use multi_agent_based_intell.Domain.TripRequest.{TripRequest, duration_days}
use multi_agent_based_intell.Domain.Itinerary.{
  ItineraryItem, DailyItinerary, ItineraryVersion, all_items,
}
use multi_agent_based_intell.Domain.Review.{ReviewArtifact, is_pass, same_members}
use multi_agent_based_intell.Domain.Bundle.{
  PlanCandidatesArtifact, PlanComparisonEntry, DataFreshnessSummary, FinalPlanBundle, plan_ids,
  evidence_ids, bundle_valid,
}
use multi_agent_based_intell.Domain.Validators.{ValidationIssue, passed}
use multi_agent_based_intell.Domain.Validators.Report.{validate_itinerary}
use multi_agent_based_intell.Agents.Artifacts.{DestinationIntelArtifact, MobilityLodgingArtifact}

-- The code of `FinalAggregationError`, or any other exception.
pub data AggregationError : Type 0 where
  run_mismatch review_not_passed review_coverage_mismatch incomplete_trip_dates : AggregationError
  deterministic_validation_failed evidence_conflict missing_evidence : AggregationError
  uncaught : AggregationError

abbrev pub ensure : Bool → AggregationError → Result AggregationError (Unit {0})
ensure true e = ok tt
ensure false e = err e

abbrev pub or_raise {ℓ} : {A : Type ℓ} → Option A → AggregationError → Result AggregationError A
or_raise none e = err e
or_raise (some a) e = ok a

-- `existing is not None and existing != evidence`, for pydantic's equality.
abbrev conflicts : (Evidence → Evidence → Bool) → Option Evidence → Evidence → Bool
conflicts same none evidence = false
conflicts same (some existing) evidence = not (same existing evidence)

-- The loop of `_merge_evidence`.
unfoldable pub merge_into :
    (Evidence → Evidence → Bool)
    → Dict String Evidence
    → List Evidence
    → Result AggregationError (Dict String Evidence)
merge_into same by_id [] = ok by_id
merge_into same by_id (evidence ∷ rest) =
    ensure (not (conflicts same (Dict.get by_id evidence.evidence_id) evidence)) evidence_conflict
    >> merge_into same (Dict.put by_id evidence.evidence_id evidence) rest

abbrev pub id_before : String × Evidence → String × Evidence → Bool
id_before a b = str_le a.0 b.0

abbrev pub in_id_order : Dict String Evidence → Result AggregationError (List Evidence)
in_id_order by_id =
    ensure (not (is_empty by_id)) missing_evidence >> ok (values (sort_by id_before by_id))

-- `_merge_evidence`, for two groups.
unfoldable pub merge_evidence :
    (Evidence → Evidence → Bool)
    → (destination mobility : List Evidence) → Result AggregationError (List Evidence)
unfolding merge_into
merge_evidence same destination mobility =
    merge_into same [] (destination ++ mobility) >>= in_id_order

abbrev pub is_fresh_as : Freshness → Evidence → Bool
is_fresh_as freshness item = freshness_value item.freshness == freshness_value freshness

abbrev oldest : ℕ → List Evidence → ℕ
oldest first [] = first
oldest first (item ∷ rest) =
    oldest (if ltb item.retrieved_at first then item.retrieved_at else first) rest

-- `_freshness`, of at least one piece of evidence.
unfoldable pub freshness : Evidence → List Evidence → DataFreshnessSummary
freshness first rest = record {
  overall =
      if any_of (is_fresh_as Freshness.unknown) (first ∷ rest)
      then Freshness.unknown
      else if any_of (is_fresh_as Freshness.stale) (first ∷ rest)
      then Freshness.stale
      else if all_of (is_fresh_as Freshness.live) (first ∷ rest)
      then Freshness.live
      else Freshness.fresh;
  oldest_retrieved_at = oldest first.retrieved_at rest;
  stale_evidence_count = length (select (is_fresh_as Freshness.stale) (first ∷ rest));
  unknown_evidence_count = length (select (is_fresh_as Freshness.unknown) (first ∷ rest));
}

abbrev pub freshness_of : List Evidence → Option DataFreshnessSummary
freshness_of [] = none
freshness_of (first ∷ rest) = some (freshness first rest)

abbrev or_zero : Option ℕ → ℕ
or_zero none = 0
or_zero (some n) = n

unfoldable pub commute_minutes : List ItineraryItem → ℕ
commute_minutes [] = 0
commute_minutes (item ∷ items) = or_zero item.travel_minutes_from_previous + commute_minutes items

-- Whole minutes, of items that end after they start.
unfoldable pub activity_minutes : List ItineraryItem → ℕ
activity_minutes [] = 0
activity_minutes (item ∷ items) =
    (item.end_at.instant - item.start_at.instant) / 60000000 + activity_minutes items

abbrev used_evidence : List ItineraryItem → List String
used_evidence [] = []
used_evidence (item ∷ items) = item.evidence_ids ++ used_evidence items

-- `(end - start).seconds // 60`, which counts from midnight to midnight.
abbrev pub window_minutes : TripRequest → ℕ
window_minutes request =
    let window = request.hard_constraints.daily_time_window in
    (window.finish + 86400000000 - window.start) % 86400000000 / 60000000

module _ (share : ℕ → ℕ → ℕ) where
  -- `round(known / used, 4)`, and 0 where nothing is used.
  abbrev coverage : List Evidence → List String → ℕ
  coverage evidence used =
      if is_empty used
      then 0
      else share (length (select (contains (evidence_ids evidence)) used)) (length used)

  unfoldable pub comparison_entry :
      TripRequest → List Evidence → MobilityLodgingArtifact → ItineraryVersion → PlanComparisonEntry
  unfolding commute_minutes activity_minutes
  comparison_entry request evidence mobility plan =
      let items = all_items plan.days in
      let commute = commute_minutes items in
      record {
        plan_id = plan.plan_id;
        total_cost = plan.total_cost;
        activity_count = length items;
        commute_minutes = commute;
        free_minutes =
            (window_minutes request * length plan.days - activity_minutes items) - commute;
        preference_coverage = plan.score_breakdown.preference_match;
        risk_count = length plan.unresolved_risks + length mobility.connection_risks;
        evidence_coverage = coverage evidence (used_evidence items);
      }

  -- `_build_comparison`
  abbrev pub build_comparison :
      TripRequest
      → List ItineraryVersion
      → List Evidence
      → MobilityLodgingArtifact
      → List PlanComparisonEntry
  build_comparison request plans evidence mobility =
      map (comparison_entry request evidence mobility) plans

pub record FinalInputs : Type 0 where
  pub request : TripRequest
  pub candidates : PlanCandidatesArtifact
  pub review : ReviewArtifact
  pub destination : DestinationIntelArtifact
  pub mobility : MobilityLodgingArtifact
  pub routes : List Route
  pub generated_at : ℕ
  pub revision_rounds : ℕ

-- The dates from `first` on.
abbrev dates_from : ℕ → ℕ → List ℕ
dates_from first zero = []
dates_from first (suc n) = first ∷ dates_from (first + 1) n

abbrev same_dates : List ℕ → List ℕ → Bool
same_dates [] [] = true
same_dates (a ∷ as') (b ∷ bs) = nat_beq a b && same_dates as' bs
same_dates _ _ = false

abbrev covers : TripRequest → ItineraryVersion → ℕ → Bool
covers request plan days =
    same_dates (map (λ (day : DailyItinerary). day.date) plan.days)
      (dates_from request.start_date days)

-- `tuple(dict.fromkeys(values))`
abbrev without_repeats : List String → List String → List String
without_repeats seen [] = []
without_repeats seen (text ∷ texts) =
    let rest = without_repeats (text ∷ seen) texts in
    if contains seen text then rest else text ∷ rest

module _ (next_of : CoordinateSystem → List CoordinateSystem → CoordinateSystem)
    (same : Evidence → Evidence → Bool) (share : ℕ → ℕ → ℕ) (inputs : FinalInputs) where
  abbrev pub report_of : List Evidence → ItineraryVersion → Option (List ValidationIssue)
  report_of evidence plan =
      validate_itinerary next_of plan inputs.request inputs.destination.places inputs.routes
        inputs.destination.claims evidence

  -- One round of the loop over the plans.
  abbrev pub verify_plan :
      ℕ → List Evidence → ItineraryVersion → Result AggregationError ItineraryVersion
  verify_plan days evidence plan =
      ensure (covers inputs.request plan days) incomplete_trip_dates
      >> (or_raise (report_of evidence plan) uncaught >>= λ issues.
          ensure (passed issues) deterministic_validation_failed
          >> (or_raise (Dict.get inputs.review.plan_scores plan.plan_id) uncaught >>= λ score.
              ok (record plan { score_breakdown = score })))

  unfoldable pub verify_plans :
      ℕ → List Evidence → List ItineraryVersion → Result AggregationError (List ItineraryVersion)
  verify_plans days evidence [] = ok []
  verify_plans days evidence (plan ∷ plans) = verify_plan days evidence plan >>= λ verified.
      verify_plans days evidence plans >>= λ rest. ok (verified ∷ rest)

  -- `len(run_ids) == 1`
  abbrev pub one_run : Bool
  one_run =
      inputs.candidates.run_id == inputs.review.run_id
      && inputs.candidates.run_id == inputs.destination.run_id
      && inputs.candidates.run_id == inputs.mobility.run_id

  abbrev pub bundle_of :
      List Evidence → List ItineraryVersion → DataFreshnessSummary → FinalPlanBundle
  bundle_of evidence plans data_freshness = record {
    run_id = inputs.candidates.run_id;
    request_summary = inputs.request;
    assumptions = without_repeats [] (inputs.destination.unknowns ++ inputs.mobility.unknowns);
    plans = plans;
    comparison = build_comparison share inputs.request plans evidence inputs.mobility;
    evidence = evidence;
    collaboration_summary = record {
      participating_agents =
          "coordinator" ∷ "destination_intelligence" ∷ "mobility_lodging" ∷ "itinerary_planner"
          ∷ "critic" ∷ [];
      completed_task_count = 7 + inputs.revision_rounds * 2;
      revision_rounds = inputs.revision_rounds;
      notes = "最终输出由确定性模板生成，未调用润色模型。" ∷ [];
    };
    generated_at = inputs.generated_at;
    data_freshness = data_freshness;
  }

  -- `aggregate`, up to the rendering of the bundle.
  unfoldable pub aggregate : Result AggregationError FinalPlanBundle
  unfolding verify_plans merge_evidence comparison_entry freshness
  aggregate =
      ensure one_run run_mismatch
      >> (ensure (is_pass inputs.review.verdict) review_not_passed
          >> (ensure
                (same_members inputs.review.reviewed_plan_ids (plan_ids inputs.candidates.plans))
                review_coverage_mismatch
              >> (or_raise (duration_days inputs.request) uncaught >>= λ days.
                  merge_evidence same inputs.destination.evidence inputs.mobility.evidence
                  >>= λ evidence. verify_plans days evidence inputs.candidates.plans >>= λ plans.
                      or_raise (freshness_of evidence) uncaught >>= λ summary.
                      ensure (bundle_valid (bundle_of evidence plans summary)) uncaught
                      >> ok (bundle_of evidence plans summary))))
