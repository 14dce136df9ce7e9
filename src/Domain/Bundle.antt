-- ===== src/Domain/Bundle.antt =====
-- packages/domain/itinerary.py: candidate plans, their comparison, and the final bundle. A share
-- between 0 and 1 is in ten-thousandths.
use multi_agent_based_intell.Prelude.{ℕ, String, Bool, ◌&&◌, List, map, string_eq, is_unique}
use multi_agent_based_intell.Domain.Messaging.{Evidence, Freshness}
use multi_agent_based_intell.Domain.Travel.{CostEstimate}
use multi_agent_based_intell.Domain.TripRequest.{TripRequest}
use multi_agent_based_intell.Domain.Itinerary.{ItineraryVersion, strategy_value}
use multi_agent_based_intell.Domain.Review.{same_members}

abbrev pub plan_ids : List ItineraryVersion → List String
plan_ids plans = map (λ (plan : ItineraryVersion). plan.plan_id) plans

pub record PlanCandidatesArtifact : Type 0 where
  pub artifact_id : String
  pub run_id : String
  pub producer_agent : String
  pub plans : List ItineraryVersion
  pub created_at : ℕ

-- `plan_ids_and_strategies_are_unique` raises nothing.
abbrev pub candidates_valid : PlanCandidatesArtifact → Bool
candidates_valid candidates =
    is_unique (plan_ids candidates.plans)
    && is_unique (map (λ (plan : ItineraryVersion). strategy_value plan.strategy) candidates.plans)

pub record PlanComparisonEntry : Type 0 where
  pub plan_id : String
  pub total_cost : CostEstimate
  pub activity_count : ℕ
  pub commute_minutes : ℕ
  pub free_minutes : ℕ
  pub preference_coverage : ℕ
  pub risk_count : ℕ
  pub evidence_coverage : ℕ

abbrev pub compared_ids : List PlanComparisonEntry → List String
compared_ids entries = map (λ (entry : PlanComparisonEntry). entry.plan_id) entries

-- `plan_ids_are_unique` raises nothing, for the entries of a `PlanComparison`.
abbrev pub comparison_valid : List PlanComparisonEntry → Bool
comparison_valid entries = is_unique (compared_ids entries)

pub record CollaborationSummary : Type 0 where
  pub participating_agents : List String
  pub completed_task_count : ℕ
  pub revision_rounds : ℕ
  pub notes : List String

pub record DataFreshnessSummary : Type 0 where
  pub overall : Freshness
  pub oldest_retrieved_at : ℕ
  pub stale_evidence_count : ℕ
  pub unknown_evidence_count : ℕ

pub record FinalPlanBundle : Type 0 where
  pub run_id : String
  pub request_summary : TripRequest
  pub assumptions : List String
  pub plans : List ItineraryVersion
  pub comparison : List PlanComparisonEntry
  pub evidence : List Evidence
  pub collaboration_summary : CollaborationSummary
  pub generated_at : ℕ
  pub data_freshness : DataFreshnessSummary

abbrev pub evidence_ids : List Evidence → List String
evidence_ids evidence = map (λ (item : Evidence). item.evidence_id) evidence

-- `plan_comparison_and_evidence_ids_are_unique` raises nothing.
abbrev pub bundle_valid : FinalPlanBundle → Bool
bundle_valid bundle =
    is_unique (plan_ids bundle.plans)
    && same_members (plan_ids bundle.plans) (compared_ids bundle.comparison)
    && is_unique (evidence_ids bundle.evidence)
