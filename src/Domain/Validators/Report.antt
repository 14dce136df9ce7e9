-- ===== src/Domain/Validators/Report.antt =====
-- packages/domain/validators.py: `validate_itinerary`.
use multi_agent_based_intell.Prelude.{
  ◌≡◌, refl, Bool, true, ◌&&◌, Option, some, List, ◌∷◌, ◌++◌, arith, all_of, is_empty,
  is_empty-append, and_then, string_eq,
}
use multi_agent_based_intell.Domain.Travel.{CoordinateSystem, Place, Route}
use multi_agent_based_intell.Domain.Messaging.{Claim, Evidence}
use multi_agent_based_intell.Domain.TripRequest.{TripRequest}
use multi_agent_based_intell.Domain.Itinerary.{ItineraryVersion}
use multi_agent_based_intell.Domain.Validators.{ValidationIssue}
use multi_agent_based_intell.Domain.Validators.Budget.{validate_budget}
use multi_agent_based_intell.Domain.Validators.Budget.Exact.{
  costs_shaped, is_within_budget, validate_budget-Exact,
}
use multi_agent_based_intell.Domain.Validators.Times.{validate_time_windows, validate_overlaps}
use multi_agent_based_intell.Domain.Validators.Times.Windows.{
  day_is_timely, validate_time_windows-Exact,
}
use multi_agent_based_intell.Domain.Validators.Opening.{
  place_by_id, has_system, validate_opening_hours, validate_coordinates,
}
use multi_agent_based_intell.Domain.Validators.Opening.Hours.{
  day_is_open, validate_opening_hours-Exact,
}
use multi_agent_based_intell.Domain.Validators.Opening.Systems.{
  in_one_system, validate_coordinates-Exact,
}
use multi_agent_based_intell.Domain.Validators.References.{known_of, validate_references}
use multi_agent_based_intell.Domain.Validators.References.Resolved.{
  place_resolved, route_resolved, claim_resolved, day_resolved, validate_references-Exact,
}

module _ (next_of : CoordinateSystem → List CoordinateSystem → CoordinateSystem)
    (plan : ItineraryVersion) (request : TripRequest) (places : List Place) (routes : List Route)
    (claims : List Claim) (evidence : List Evidence) where
  -- The issues of the report, pass by pass; `none` for the failed assertion of the first pass.
  unfoldable pub validate_itinerary : Option (List ValidationIssue)
  validate_itinerary = and_then (validate_budget plan request) λ budget. some (
      budget
      ++ validate_time_windows plan request
      ++ validate_overlaps plan
      ++ validate_opening_hours plan places
      ++ validate_coordinates next_of places routes
      ++ validate_references plan places routes claims evidence)

  -- What the passes other than that for overlaps ask of a plan.
  abbrev pub is_consistent_plan : Bool
  is_consistent_plan =
      is_within_budget plan request
      && all_of (day_is_timely request) plan.days
      && all_of (day_is_open (place_by_id places)) plan.days
      && in_one_system places routes
      && (all_of (place_resolved (known_of places routes claims evidence)) places
          && all_of (route_resolved (known_of places routes claims evidence)) routes
          && all_of (claim_resolved (known_of places routes claims evidence)) claims
          && all_of (day_resolved (known_of places routes claims evidence)) plan.days)

  -- For a plan whose costs keep to the contract of `CostEstimate`, `validate_itinerary` returns,
  -- and its report is empty exactly when the plan is within its budget, its dates, windows and
  -- opening hours, in one coordinate system, resolved in all its references, and free of reported
  -- overlaps.
  pub validate_itinerary-Exact :
      ((s : CoordinateSystem) (ss : List CoordinateSystem)
        → has_system (s ∷ ss) (next_of s ss) ≡ true)
      → costs_shaped plan ≡ true
      → (issues : List ValidationIssue) × (validate_itinerary ≡ some issues)
        × (is_empty issues ≡ (is_consistent_plan && is_empty (validate_overlaps plan)))
  unfolding validate_itinerary
  validate_itinerary-Exact chosen shaped =
      let (budget, e, exact) = validate_budget-Exact plan request shaped in
      rw e (
        _,
        refl,
        grind (
          arith,
          is_empty-append,
          exact,
          validate_time_windows-Exact plan request,
          validate_opening_hours-Exact plan places,
          validate_coordinates-Exact next_of chosen places routes,
          validate_references-Exact plan places routes claims evidence,
        ),
      )
