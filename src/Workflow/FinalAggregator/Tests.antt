-- ===== src/Workflow/FinalAggregator/Tests.antt =====
-- A final bundle of one plan of one day.
use multi_agent_based_intell.Prelude.{ℕ, ◌*◌, ◌/◌, ◌≡◌, refl, false, List, [], ◌∷◌, ok}
use multi_agent_based_intell.Prelude.Dict
use multi_agent_based_intell.Prelude.Sorting.{sort_by}
use multi_agent_based_intell.Domain.Travel.{CoordinateSystem}
use multi_agent_based_intell.Domain.Messaging.{Freshness, same_evidence, same_evidence_sound}
use multi_agent_based_intell.Domain.TripRequest.{duration_days}
use multi_agent_based_intell.Domain.Review.{ReviewVerdict}
use multi_agent_based_intell.Domain.Bundle.{FinalPlanBundle}
use multi_agent_based_intell.Domain.Validators.{passed}
use multi_agent_based_intell.Domain.Validators.Budget.{validate_budget}
use multi_agent_based_intell.Domain.Validators.Times.{
  validate_time_windows, days_windows, items_windows, validate_overlaps, days_overlaps,
  overlaps_after,
}
use multi_agent_based_intell.Domain.Validators.Opening.{
  put_places, systems_of, route_issues, validate_opening_hours, validate_coordinates,
}
use multi_agent_based_intell.Domain.Validators.References.{put_claims, validate_references}
use multi_agent_based_intell.Domain.Validators.Report.{validate_itinerary}
use multi_agent_based_intell.Domain.Validators.Samples.{plan, request, places, claims, evidence}
use multi_agent_based_intell.Workflow.FinalAggregator.{
  FinalInputs, aggregate, bundle_of, freshness, merge_evidence,
}
use multi_agent_based_intell.Workflow.FinalAggregator.Merging.Ends.{Merging, merge_evidence-Merging}
use multi_agent_based_intell.Workflow.FinalAggregator.Checked.{IsFinal, aggregate-IsFinal}

abbrev inputs : FinalInputs
inputs = record {
  request = request;
  candidates = record {
    artifact_id = "candidates";
    run_id = "run";
    producer_agent = "itinerary_planner";
    plans = plan ∷ [];
    created_at = 0;
  };
  review = record {
    artifact_id = "review";
    run_id = "run";
    producer_agent = "critic";
    reviewed_plan_ids = "plan" ∷ [];
    verdict = ReviewVerdict.pass;
    plan_scores = ("plan", plan.score_breakdown) ∷ [];
    hard_violations = [];
    patch_requests = [];
    created_at = 0;
  };
  destination = record {
    artifact_id = "destination";
    run_id = "run";
    producer_agent = "destination_intelligence";
    destination = "北京";
    places = places;
    weather = [];
    claims = claims;
    evidence = evidence;
    unknowns = [];
    created_at = 0;
  };
  mobility = record {
    artifact_id = "mobility";
    run_id = "run";
    producer_agent = "mobility_lodging";
    transport_options = [];
    lodging_candidates = [];
    targeted_routes = [];
    connection_risks = [];
    provider_failures = [];
    evidence = evidence;
    unknowns = [];
    manual_confirmation_required = false;
    created_at = 0;
  };
  routes = [];
  generated_at = 0;
  revision_rounds = 0;
}

abbrev first_of : CoordinateSystem → List CoordinateSystem → CoordinateSystem
first_of s ss = s

abbrev share : ℕ → ℕ → ℕ
share part whole = part * 10000 / whole

merges : merge_evidence same_evidence evidence evidence ≡ ok evidence
unfolding merge_evidence Dict.get Dict.put sort_by
merges = refl

merge_evidence-Merging_example :
    Merging same_evidence same_evidence_sound evidence evidence
      (merge_evidence same_evidence evidence evidence)
merge_evidence-Merging_example =
    merge_evidence-Merging same_evidence same_evidence_sound evidence evidence

abbrev final : FinalPlanBundle
unfolding freshness
final = bundle_of first_of same_evidence share inputs evidence (plan ∷ []) (record {
  overall = Freshness.fresh;
  oldest_retrieved_at = 1;
  stale_evidence_count = 0;
  unknown_evidence_count = 0;
})

finalizes : aggregate first_of same_evidence share inputs ≡ ok final
unfolding aggregate validate_itinerary validate_budget validate_time_windows validate_overlaps
    validate_opening_hours validate_coordinates validate_references duration_days Dict.get Dict.put
    passed days_windows items_windows days_overlaps sort_by overlaps_after put_places systems_of
    route_issues put_claims
finalizes = refl

aggregate-IsFinal_example : IsFinal first_of same_evidence share inputs final
aggregate-IsFinal_example = aggregate-IsFinal first_of same_evidence share inputs finalizes
