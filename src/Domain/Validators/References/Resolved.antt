-- ===== src/Domain/Validators/References/Resolved.antt =====
-- When `validate_references` reports nothing.
use multi_agent_based_intell.Prelude.{
  ℕ, suc, String, ◌≡◌, refl, Bool, true, false, not, ◌&&◌, Option, none, some, List, [], ◌∷◌, arith,
  all_of, ◌==◌, string_eq, is_empty, is_empty-append,
}
use multi_agent_based_intell.Prelude.Dict
use multi_agent_based_intell.Domain.Travel.{Place, Route}
use multi_agent_based_intell.Domain.Messaging.{Claim, Evidence, is_unknown_claim}
use multi_agent_based_intell.Domain.Itinerary.{ItineraryItem, DailyItinerary, ItineraryVersion}
use multi_agent_based_intell.Domain.Validators.{ValidationCode, PathStep}
use multi_agent_based_intell.Domain.Validators.References.{
  missing, Known, known_of, has_place, has_claim, has_evidence, is_previous, route_reference,
  places_references, routes_references, claims_references, items_references, days_references,
  validate_references,
}

abbrev pub place_resolved : Known → Place → Bool
place_resolved known place = all_of (has_evidence known) place.evidence_ids

abbrev pub route_resolved : Known → Route → Bool
route_resolved known route =
    has_place known route.origin_place_id
    && has_place known route.destination_place_id
    && all_of (has_evidence known) route.evidence_ids

abbrev pub claim_resolved : Known → Claim → Bool
claim_resolved known claim =
    all_of (has_evidence known) claim.evidence_ids
    && not (claim.required_hard_constraint && is_unknown_claim claim.status)

-- The route leads from the preceding place to the item's.
abbrev connects : Option String → String → Option Route → Bool
connects previous place_id none = false
connects previous place_id (some route) =
    is_previous previous route.origin_place_id && (route.destination_place_id == place_id)

abbrev connected : Known → Option String → String → Option String → Bool
connected known previous place_id none = true
connected known previous place_id (some route_id) =
    connects previous place_id (Dict.get known.routes route_id)

-- The items of a day, after the place `previous`.
abbrev pub items_resolved : Known → Option String → List ItineraryItem → Bool
items_resolved known previous [] = true
items_resolved known previous (item ∷ items) =
    has_place known item.place_id
    && all_of (has_claim known) item.claim_ids
    && all_of (has_evidence known) item.evidence_ids
    && connected known previous item.place_id item.route_from_previous_id
    && items_resolved known (some item.place_id) items

abbrev pub day_resolved : Known → DailyItinerary → Bool
day_resolved known day = items_resolved known none day.items

missing-known :
    (known : String → Bool) (code : ValidationCode) (message : String) (path : List PathStep)
    (owner : String) (ids : List String)
    → is_empty (missing known code message path owner ids) ≡ all_of known ids
unfolding missing
missing-known known code message path owner [] = refl
missing-known known code message path owner (id ∷ ids) =
    grind (arith, is_empty-append, missing-known known code message path owner ids)

places-resolved :
    (known : Known) (i : ℕ) (places : List Place)
    → is_empty (places_references known i places) ≡ all_of (place_resolved known) places
unfolding places_references
places-resolved known i [] = refl
places-resolved known i (place ∷ places) =
    grind (arith, is_empty-append, missing-known, places-resolved known (suc i) places)

routes-resolved :
    (known : Known) (i : ℕ) (routes : List Route)
    → is_empty (routes_references known i routes) ≡ all_of (route_resolved known) routes
unfolding routes_references
routes-resolved known i [] = refl
routes-resolved known i (route ∷ routes) =
    grind (arith, is_empty-append, missing-known, routes-resolved known (suc i) routes)

claims-resolved :
    (known : Known) (i : ℕ) (claims : List Claim)
    → is_empty (claims_references known i claims) ≡ all_of (claim_resolved known) claims
unfolding claims_references
claims-resolved known i [] = refl
claims-resolved known i (claim ∷ claims) =
    grind (arith, is_empty-append, missing-known, claims-resolved known (suc i) claims)

reference-connected :
    (known : Known) (path : List PathStep) (item : ItineraryItem) (previous route : Option String)
    → is_empty (route_reference known path item previous route)
      ≡ connected known previous item.place_id route
reference-connected known path item previous none = refl
reference-connected known path item previous (some route_id) = ground arith

items-resolved :
    (known : Known) (d i : ℕ) (previous : Option String) (items : List ItineraryItem)
    → is_empty (items_references known d i previous items) ≡ items_resolved known previous items
unfolding items_references
items-resolved known d i previous [] = refl
items-resolved known d i previous (item ∷ items) = grind (
  arith,
  is_empty-append,
  missing-known,
  reference-connected,
  items-resolved known d (suc i) (some item.place_id) items,
)

days-resolved :
    (known : Known) (d : ℕ) (days : List DailyItinerary)
    → is_empty (days_references known d days) ≡ all_of (day_resolved known) days
unfolding days_references
days-resolved known d [] = refl
days-resolved known d (day ∷ days) = grind (
  arith,
  is_empty-append,
  days-resolved known (suc d) days,
  items-resolved known d 0 none day.items,
)

-- `validate_references` reports nothing exactly when the ids that places, routes, claims and items
-- name are all known, no required hard-constraint claim is unknown, and each route that an item
-- names leads from the place of the day's preceding item to the item's own.
pub validate_references-Exact :
    (plan : ItineraryVersion) (places : List Place) (routes : List Route) (claims : List Claim)
    (evidence : List Evidence)
    → is_empty (validate_references plan places routes claims evidence) ≡ (
        all_of (place_resolved (known_of places routes claims evidence)) places
        && all_of (route_resolved (known_of places routes claims evidence)) routes
        && all_of (claim_resolved (known_of places routes claims evidence)) claims
        && all_of (day_resolved (known_of places routes claims evidence)) plan.days)
unfolding validate_references
validate_references-Exact plan places routes claims evidence =
    let known = known_of places routes claims evidence in
    grind (
      arith,
      is_empty-append,
      places-resolved known 0 places,
      routes-resolved known 0 routes,
      claims-resolved known 0 claims,
      days-resolved known 0 plan.days,
    )
