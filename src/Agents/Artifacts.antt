-- ===== src/Agents/Artifacts.antt =====
-- The artifacts of packages/agents/destination_intelligence.py and mobility_lodging.py.
use multi_agent_based_intell.Prelude.{
  ℕ, String, Bool, not, ◌&&◌, ◌||◌, List, map, string_eq, contains, is_unique, is_empty, any_of,
  all_of,
}
use multi_agent_based_intell.Domain.Messaging.{Evidence, Claim}
use multi_agent_based_intell.Domain.Travel.{Place, Route, is_unknown}
use multi_agent_based_intell.Domain.Options.{WeatherForecast, Lodging, IntercityTransport, is_live}
use multi_agent_based_intell.Domain.Bundle.{evidence_ids}

pub record DestinationIntelArtifact : Type 0 where
  pub artifact_id : String
  pub run_id : String
  pub producer_agent : String
  pub destination : String
  pub places : List Place
  pub weather : List WeatherForecast
  pub claims : List Claim
  pub evidence : List Evidence
  pub unknowns : List String
  pub created_at : ℕ

-- `set(references) - known_evidence` is empty.
abbrev pub all_known : List Evidence → List String → Bool
all_known evidence references = all_of (contains (evidence_ids evidence)) references

-- `references_are_complete` raises nothing.
abbrev pub destination_valid : DestinationIntelArtifact → Bool
destination_valid artifact =
    is_unique (evidence_ids artifact.evidence)
    && is_unique (map (λ (place : Place). place.place_id) artifact.places)
    && all_of (λ (place : Place). all_known artifact.evidence place.evidence_ids) artifact.places
    && all_of (λ (item : WeatherForecast). all_known artifact.evidence item.evidence_ids)
        artifact.weather
    && all_of (λ (claim : Claim). all_known artifact.evidence claim.evidence_ids) artifact.claims

pub record ProviderFailure : Type 0 where
  pub provider : String
  pub operation : String
  pub message : String
  pub retryable : Bool

pub record ConnectionRisk : Type 0 where
  pub risk_id : String
  pub severity : ℕ
  pub summary : String
  pub related_ids : List String
  pub manual_confirmation_required : Bool

pub record MobilityLodgingArtifact : Type 0 where
  pub artifact_id : String
  pub run_id : String
  pub producer_agent : String
  pub transport_options : List IntercityTransport
  pub lodging_candidates : List Lodging
  pub targeted_routes : List Route
  pub connection_risks : List ConnectionRisk
  pub provider_failures : List ProviderFailure
  pub evidence : List Evidence
  pub unknowns : List String
  pub manual_confirmation_required : Bool
  pub created_at : ℕ

-- `needs_confirmation`
abbrev pub needs_confirmation : MobilityLodgingArtifact → Bool
needs_confirmation artifact =
    any_of (λ (option : IntercityTransport). is_unknown option.price.kind)
      artifact.transport_options
    || any_of (λ (lodging : Lodging). is_unknown lodging.nightly_price.kind)
        artifact.lodging_candidates
    || any_of (λ (option : IntercityTransport). not (is_live option.availability))
        artifact.transport_options
    || not (is_empty artifact.provider_failures)
    || any_of (λ (risk : ConnectionRisk). risk.manual_confirmation_required)
        artifact.connection_risks

-- `provenance_and_fallback_are_explicit` raises nothing.
abbrev pub mobility_valid : MobilityLodgingArtifact → Bool
mobility_valid artifact =
    is_unique (evidence_ids artifact.evidence)
    && all_of (λ (option : IntercityTransport). all_known artifact.evidence option.evidence_ids)
        artifact.transport_options
    && all_of (λ (lodging : Lodging). all_known artifact.evidence lodging.evidence_ids)
        artifact.lodging_candidates
    && all_of (λ (route : Route). all_known artifact.evidence route.evidence_ids)
        artifact.targeted_routes
    && not (needs_confirmation artifact && not artifact.manual_confirmation_required)
    && not (needs_confirmation artifact && is_empty artifact.unknowns)
