-- ===== src/Domain/Validators/References.antt =====
-- packages/domain/validators.py: `validate_references`.
pub mod Resolved
use multi_agent_based_intell.Prelude.{
  ℕ, suc, String, Bool, false, not, ◌&&◌, ◌||◌, Option, none, some, List, [], ◌∷◌, ◌++◌, map, ◌==◌,
  contains, string_eq,
}
use multi_agent_based_intell.Prelude.Dict
use multi_agent_based_intell.Prelude.Dict.{Dict}
use multi_agent_based_intell.Domain.Travel.{Place, Route}
use multi_agent_based_intell.Domain.Messaging.{Claim, Evidence, is_unknown_claim}
use multi_agent_based_intell.Domain.Itinerary.{ItineraryItem, DailyItinerary, ItineraryVersion}
use multi_agent_based_intell.Domain.Validators.{
  ValidationIssue, ValidationCode, PathStep, missing_place_reference, missing_route_reference,
  missing_claim_reference, missing_evidence_reference, route_endpoint_mismatch,
  unknown_hard_constraint, field, item_of, issue, report_if,
}
use multi_agent_based_intell.Domain.Validators.Opening.{place_by_id}
use multi_agent_based_intell.Domain.Validators.Times.{item_path}

unfoldable pub put_routes : Dict String Route → List Route → Dict String Route
put_routes found [] = found
put_routes found (route ∷ routes) = put_routes (Dict.put found route.route_id route) routes

-- `{route.route_id: route for route in routes}`
abbrev pub route_by_id : List Route → Dict String Route
route_by_id routes = put_routes [] routes

unfoldable pub put_claims : Dict String Claim → List Claim → Dict String Claim
put_claims found [] = found
put_claims found (claim ∷ claims) = put_claims (Dict.put found claim.claim_id claim) claims

-- `{claim.claim_id: claim for claim in claims}`
abbrev pub claim_by_id : List Claim → Dict String Claim
claim_by_id claims = put_claims [] claims

-- `for id in ids: if id not in known: issues.append(...)`
unfoldable pub missing :
    (String → Bool)
    → ValidationCode
    → String
    → List PathStep
    → String
    → List String
    → List ValidationIssue
missing known code message path owner [] = []
missing known code message path owner (id ∷ ids) =
    report_if (not (known id)) (issue code message path (owner ∷ id ∷ [])) []
    ++ missing known code message path owner ids

-- The four tables.
pub record Known : Type 0 where
  pub places : Dict String Place
  pub routes : Dict String Route
  pub claims : Dict String Claim
  pub evidence : List String

abbrev pub has_place : Known → String → Bool
has_place known id = Dict.has known.places id

abbrev pub has_claim : Known → String → Bool
has_claim known id = Dict.has known.claims id

abbrev pub has_evidence : Known → String → Bool
has_evidence known id = contains known.evidence id

unfoldable pub places_references : Known → ℕ → List Place → List ValidationIssue
unfolding missing
places_references known place_index [] = []
places_references known place_index (place ∷ places) =
    missing (has_evidence known) missing_evidence_reference "place references unknown evidence"
      (item_of "places" place_index ∷ field "evidence_ids" ∷ []) place.place_id place.evidence_ids
    ++ places_references known (suc place_index) places

abbrev endpoint_issue : Known → ℕ → Route → String → String → List ValidationIssue
endpoint_issue known route_index route endpoint_name place_id =
    report_if (not (has_place known place_id))
      (issue missing_place_reference "route endpoint references an unknown place"
        (item_of "routes" route_index ∷ field endpoint_name ∷ []) (route.route_id ∷ place_id ∷ []))
      []

unfoldable pub routes_references : Known → ℕ → List Route → List ValidationIssue
unfolding missing
routes_references known route_index [] = []
routes_references known route_index (route ∷ routes) =
    endpoint_issue known route_index route "origin_place_id" route.origin_place_id
    ++ endpoint_issue known route_index route "destination_place_id" route.destination_place_id
    ++ missing (has_evidence known) missing_evidence_reference "route references unknown evidence"
        (item_of "routes" route_index ∷ field "evidence_ids" ∷ []) route.route_id route.evidence_ids
    ++ routes_references known (suc route_index) routes

unfoldable pub claims_references : Known → ℕ → List Claim → List ValidationIssue
unfolding missing
claims_references known claim_index [] = []
claims_references known claim_index (claim ∷ claims) =
    missing (has_evidence known) missing_evidence_reference "claim references unknown evidence"
      (item_of "claims" claim_index ∷ field "evidence_ids" ∷ []) claim.claim_id claim.evidence_ids
    ++ report_if (claim.required_hard_constraint && is_unknown_claim claim.status)
        (issue unknown_hard_constraint "a required hard-constraint claim remains unknown"
          (item_of "claims" claim_index ∷ field "status" ∷ []) (claim.claim_id ∷ []))
        []
    ++ claims_references known (suc claim_index) claims

abbrev pub is_previous : Option String → String → Bool
is_previous none place_id = false
is_previous (some previous) place_id = place_id == previous

abbrev pub route_found :
    List PathStep → ItineraryItem → Option String → String → Option Route → List ValidationIssue
route_found path item previous route_id none =
    issue missing_route_reference "activity references an unknown route"
      (path ++ (field "route_from_previous_id" ∷ [])) (item.plan_item_id ∷ route_id ∷ [])
    ∷ []
route_found path item previous route_id (some route) =
    report_if
      (not (is_previous previous route.origin_place_id)
        || not (route.destination_place_id == item.place_id))
      (issue route_endpoint_mismatch
        "route endpoints do not connect the preceding and current activities"
        (path ++ (field "route_from_previous_id" ∷ [])) (item.plan_item_id ∷ route.route_id ∷ []))
      []

abbrev pub route_reference :
    Known → List PathStep → ItineraryItem → Option String → Option String → List ValidationIssue
route_reference known path item previous none = []
route_reference known path item previous (some route_id) =
    route_found path item previous route_id (Dict.get known.routes route_id)

-- The loop over a day's items, with `previous_place_id`.
unfoldable pub items_references :
    Known → ℕ → ℕ → Option String → List ItineraryItem → List ValidationIssue
unfolding missing
items_references known day_index item_index previous [] = []
items_references known day_index item_index previous (item ∷ items) =
    report_if (not (has_place known item.place_id))
      (issue missing_place_reference "activity references an unknown place"
        (item_path day_index item_index ++ (field "place_id" ∷ []))
        (item.plan_item_id ∷ item.place_id ∷ []))
      []
    ++ missing (has_claim known) missing_claim_reference "activity references an unknown claim"
        (item_path day_index item_index ++ (field "claim_ids" ∷ [])) item.plan_item_id
        item.claim_ids
    ++ missing (has_evidence known) missing_evidence_reference
        "activity references unknown evidence"
        (item_path day_index item_index ++ (field "evidence_ids" ∷ [])) item.plan_item_id
        item.evidence_ids
    ++ route_reference known (item_path day_index item_index) item previous
        item.route_from_previous_id
    ++ items_references known day_index (suc item_index) (some item.place_id) items

unfoldable pub days_references : Known → ℕ → List DailyItinerary → List ValidationIssue
unfolding items_references
days_references known day_index [] = []
days_references known day_index (day ∷ days) =
    items_references known day_index 0 none day.items ++ days_references known (suc day_index) days

abbrev pub known_of : List Place → List Route → List Claim → List Evidence → Known
known_of places routes claims evidence = record {
  places = place_by_id places;
  routes = route_by_id routes;
  claims = claim_by_id claims;
  evidence = map (λ item. item.evidence_id) evidence;
}

unfoldable pub validate_references :
    ItineraryVersion → List Place → List Route → List Claim → List Evidence → List ValidationIssue
unfolding places_references routes_references claims_references days_references
validate_references plan places routes claims evidence =
    let known = known_of places routes claims evidence in
    places_references known 0 places
    ++ routes_references known 0 routes
    ++ claims_references known 0 claims
    ++ days_references known 0 plan.days
