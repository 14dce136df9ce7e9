-- ===== src/Api/RunModels.antt =====
-- apps/api/run_models.py: the resources that the run service keeps and returns.
use multi_agent_based_intell.Prelude.{ℕ, String, Bool, Option, List}
use multi_agent_based_intell.Domain.TripRequest.{TripRequest}
use multi_agent_based_intell.Domain.Bundle.{FinalPlanBundle, PlanComparisonEntry}

-- A coordinate is the decimal text of a float.
pub record MapPoint : Type 0 where
  pub place_id : String
  pub name : String
  pub longitude : String
  pub latitude : String
  pub evidence_ids : List String

pub data TripRunState : Type 0 where
  running waiting_user succeeded cancelled failed : TripRunState

-- `state is TripRunState.CANCELLED`
abbrev pub is_cancelled : TripRunState → Bool
is_cancelled TripRunState.cancelled = Bool.true
is_cancelled _ = Bool.false

pub record ClarificationAnswer : Type 0 where
  pub question_id : String
  pub answer : String

pub record TripRunResource : Type 0 where
  pub run_id : String
  pub state : TripRunState
  pub fixture_mode : Bool
  pub model_provider : String
  pub model_id : String
  pub request : TripRequest
  pub created_at : ℕ
  pub updated_at : ℕ
  pub result_available : Bool
  pub clarification_answers : List ClarificationAnswer
  pub current_version : ℕ

pub record TripRunCreated : Type 0 where
  pub run : TripRunResource
  pub access_token : String

pub record RunProgressEvent : Type 0 where
  pub sequence : ℕ
  pub event_type : String
  pub task_id : Option String
  pub agent_id : Option String
  pub state : String
  pub message : String
  pub occurred_at : ℕ
  pub artifact_ids : List String
  pub tool_calls : List String
  pub estimated_cost_microunits : ℕ

pub record TripRunResultResponse : Type 0 where
  pub run_id : String
  pub version : ℕ
  pub bundle : FinalPlanBundle
  pub map_points : List MapPoint
  pub markdown : String

pub record PlanComparisonResponse : Type 0 where
  pub run_id : String
  pub comparison : List PlanComparisonEntry
  pub generated_at : ℕ

pub record ReplanRequest : Type 0 where
  pub instruction : String
  pub base_version : Option ℕ

pub record RunVersionSummary : Type 0 where
  pub version : ℕ
  pub instruction : String
  pub created_at : ℕ
  pub changed_task_ids : List String
  pub invalidated_artifact_ids : List String
  pub current : Bool

pub record RunVersionList : Type 0 where
  pub run_id : String
  pub versions : List RunVersionSummary

pub record RunVersionDiff : Type 0 where
  pub run_id : String
  pub from_version : ℕ
  pub to_version : ℕ
  pub changed_paths : List String
  pub summary : String
