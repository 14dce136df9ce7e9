-- ===== src/Workflow/FinalAggregator/Checked.antt =====
-- What has been checked of a plan that is final.
use multi_agent_based_intell.Prelude.{
  ℕ, ◌≡◌, refl, sym, ap, subst, Bool, true, some, List, [], ◌∷◌, Result, ok, >>=-eq-ok, string_eq,
}
use multi_agent_based_intell.Prelude.Dict
use multi_agent_based_intell.Domain.Travel.{CoordinateSystem}
use multi_agent_based_intell.Domain.Messaging.{Evidence}
use multi_agent_based_intell.Domain.TripRequest.{duration_days}
use multi_agent_based_intell.Domain.Itinerary.{ItineraryVersion, ScoreBreakdown}
use multi_agent_based_intell.Domain.Review.{is_pass, same_members}
use multi_agent_based_intell.Domain.Bundle.{FinalPlanBundle, plan_ids, compared_ids, bundle_valid}
use multi_agent_based_intell.Domain.Validators.{ValidationIssue, passed}
use multi_agent_based_intell.Workflow.FinalAggregator.{
  AggregationError, incomplete_trip_dates, deterministic_validation_failed, uncaught, run_mismatch,
  review_not_passed, review_coverage_mismatch, merge_evidence, freshness_of, FinalInputs, covers,
  report_of, verify_plan, verify_plans, one_run, bundle_of, aggregate, build_comparison,
  comparison_entry,
}
use multi_agent_based_intell.Workflow.FinalAggregator.Merging.{ensure_ok, or_raise_ok}

module _ (next_of : CoordinateSystem → List CoordinateSystem → CoordinateSystem)
    (same : Evidence → Evidence → Bool) (share : ℕ → ℕ → ℕ) (inputs : FinalInputs) where
  -- A final plan is a candidate with the score of its review; the candidate covers the days of the
  -- trip, and the report of the validators on it passes.
  pub record IsVerified (days : ℕ) (evidence : List Evidence) (plan final : ItineraryVersion)
      : Type 0 where
    pub covered : covers inputs.request plan days ≡ true
    pub issues : List ValidationIssue
    pub reported : report_of next_of same share inputs evidence plan ≡ some issues
    pub clean : passed issues ≡ true
    pub score : ScoreBreakdown
    pub reviewed : Dict.get inputs.review.plan_scores plan.plan_id ≡ some score
    pub scored : record plan { score_breakdown = score } ≡ final

  abbrev pub AllVerified :
      ℕ → List Evidence → List ItineraryVersion → List ItineraryVersion → Type 0
  AllVerified days evidence [] finals = finals ≡ []
  AllVerified days evidence (plan ∷ plans) finals =
      (final : ItineraryVersion) × (rest : List ItineraryVersion) × (finals ≡ final ∷ rest)
      × IsVerified days evidence plan final
      × AllVerified days evidence plans rest

  verify_plan-IsVerified :
      (days : ℕ) (evidence : List Evidence) (plan : ItineraryVersion) {final : ItineraryVersion}
      → verify_plan next_of same share inputs days evidence plan ≡ ok final
      → IsVerified days evidence plan final
  verify_plan-IsVerified days evidence plan h =
      let (covered, h1) = ensure_ok (covers inputs.request plan days) incomplete_trip_dates _ h in
      let (issues, reported, h2) =
        or_raise_ok (report_of next_of same share inputs evidence plan) uncaught _ h1 in
      let (clean, h3) = ensure_ok (passed issues) deterministic_validation_failed _ h2 in
      let (score, reviewed, h4) =
        or_raise_ok (Dict.get inputs.review.plan_scores plan.plan_id) uncaught _ h3 in
      record {
        covered = covered;
        issues = issues;
        reported = reported;
        clean = clean;
        score = score;
        reviewed = reviewed;
        scored = ok_eq h4;
      }
    where
      ok_eq :
          {a b : ItineraryVersion}
          → ◌≡◌ {A = Result AggregationError ItineraryVersion} (ok a) (ok b)
          → a ≡ b
      ok_eq p = cc

  verify_plans-AllVerified :
      (days : ℕ) (evidence : List Evidence) (plans : List ItineraryVersion)
      {finals : List ItineraryVersion}
      → verify_plans next_of same share inputs days evidence plans ≡ ok finals
      → AllVerified days evidence plans finals
  unfolding verify_plans
  verify_plans-AllVerified days evidence [] h = sym (cc)
  verify_plans-AllVerified days evidence (plan ∷ plans) h =
      let (final, first, h1) =
        >>=-eq-ok (verify_plan next_of same share inputs days evidence plan) _ h in
      let (rest, later, h2) =
        >>=-eq-ok (verify_plans next_of same share inputs days evidence plans) _ h1 in
      (
        final,
        rest,
        cc h2,
        verify_plan-IsVerified days evidence plan first,
        verify_plans-AllVerified days evidence plans later,
      )

  compared_rows :
      (evidence : List Evidence) (plans : List ItineraryVersion)
      → compared_ids (build_comparison share inputs.request plans evidence inputs.mobility)
        ≡ plan_ids plans
  unfolding comparison_entry
  compared_rows evidence [] = refl
  compared_rows evidence (plan ∷ plans) =
      ap (λ ids. plan.plan_id ∷ ids) (compared_rows evidence plans)

  -- What a final bundle rests on.
  pub record IsFinal (bundle : FinalPlanBundle) : Type 0 where
    pub of_one_run : one_run next_of same share inputs ≡ true
    pub passing : is_pass inputs.review.verdict ≡ true
    pub reviewed :
        same_members inputs.review.reviewed_plan_ids (plan_ids inputs.candidates.plans) ≡ true
    pub days : ℕ
    pub duration : duration_days inputs.request ≡ some days
    pub plans : AllVerified days bundle.evidence inputs.candidates.plans bundle.plans
    pub evidence :
        merge_evidence same inputs.destination.evidence inputs.mobility.evidence
        ≡ ok bundle.evidence
    pub compared : compared_ids bundle.comparison ≡ plan_ids bundle.plans
    pub valid : bundle_valid bundle ≡ true

  -- `aggregate` fails closed: a bundle that it gives comes from inputs of one run and a passing
  -- review of exactly the candidates; its plans are the candidates in order, each with the score of
  -- the review, each covering all days of the trip and passing the validators on the merged
  -- evidence of both agents, which is the bundle's; the comparison has a row for each plan in order,
  -- and the bundle keeps to its contract.
  pub aggregate-IsFinal :
      {bundle : FinalPlanBundle} → aggregate next_of same share inputs ≡ ok bundle → IsFinal bundle
  unfolding aggregate
  aggregate-IsFinal {bundle} h =
      let (one, h1) = ensure_ok (one_run next_of same share inputs) run_mismatch _ h in
      let (passing, h2) = ensure_ok (is_pass inputs.review.verdict) review_not_passed _ h1 in
      let (covered, h3) =
        ensure_ok (same_members inputs.review.reviewed_plan_ids (plan_ids inputs.candidates.plans))
          review_coverage_mismatch _ h2 in
      let (days, duration, h4) = or_raise_ok (duration_days inputs.request) uncaught _ h3 in
      let (evidence, merged, h5) =
        >>=-eq-ok (merge_evidence same inputs.destination.evidence inputs.mobility.evidence) _ h4 in
      let (plans, verified, h6) =
        >>=-eq-ok (verify_plans next_of same share inputs days evidence inputs.candidates.plans) _
          h5 in
      let (summary, fresh, h7) = or_raise_ok (freshness_of evidence) uncaught _ h6 in
      let (valid, h8) =
        ensure_ok (bundle_valid (bundle_of next_of same share inputs evidence plans summary))
          uncaught _ h7 in
      subst IsFinal (ok_eq h8) (record {
        of_one_run = one;
        passing = passing;
        reviewed = covered;
        days = days;
        duration = duration;
        plans = verify_plans-AllVerified days evidence inputs.candidates.plans verified;
        evidence = merged;
        compared = compared_rows evidence plans;
        valid = valid;
      })
    where
      ok_eq :
          {a b : FinalPlanBundle}
          → ◌≡◌ {A = Result AggregationError FinalPlanBundle} (ok a) (ok b)
          → a ≡ b
      ok_eq p = cc
