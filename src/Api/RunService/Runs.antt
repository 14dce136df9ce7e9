-- ===== src/Api/RunService/Runs.antt =====
-- A stored run of apps/api/run_service.py, and what each operation makes of it.
use multi_agent_based_intell.Prelude.{
  ℕ, ◌+◌, String, Bool, true, false, not, Option, none, some, List, [], ◌∷◌, ◌++◌, map, Result, ok,
  err, ◌>>=◌, ltb, leb, nat_beq, string_eq, nat_eq, length, if◌then◌else◌,
}
use multi_agent_based_intell.Prelude.Dict
use multi_agent_based_intell.Prelude.Dict.{Dict, keys}
use multi_agent_based_intell.Domain.Json.{Json}
use multi_agent_based_intell.Domain.TripRequest.{TripRequest}
use multi_agent_based_intell.Domain.Bundle.{FinalPlanBundle}
use multi_agent_based_intell.Api.RunModels.{
  MapPoint, TripRunState, is_cancelled, ClarificationAnswer, TripRunResource, TripRunResultResponse,
  ReplanRequest, RunVersionSummary,
}
use multi_agent_based_intell.Api.RunService.Instruction.{apply_instruction}

-- `RunNotFoundError`, `RunConflictError`, `RunAccessError`, and any other exception.
pub data RunError : Type 0 where
  not_found conflict access_denied uncaught : RunError

pub record StoredTripRun : Type 0 where
  pub resource : TripRunResource
  pub result : TripRunResultResponse
  pub token_hash : String
  pub answers : List ClarificationAnswer
  pub versions : Dict ℕ TripRunResultResponse
  pub version_summaries : List RunVersionSummary

-- What the service calls.
pub record Backend : Type 0 where
  pub request_digest : TripRequest → String → String
  pub hmac : String → String → String
  pub hash_token : String → String
  pub fixture_bundle : String → TripRequest → ℕ → FinalPlanBundle
  pub render_markdown : FinalPlanBundle → String
  pub model_dump : FinalPlanBundle → Json
  pub dump_json : FinalPlanBundle → String
  pub map_points : List MapPoint

abbrev pub or_error {ℓ} : {A : Type ℓ} → Option A → RunError → Result RunError A
or_error none e = err e
or_error (some a) e = ok a

-- `max(versions)`, of versions above 0.
abbrev pub highest : List ℕ → ℕ
highest [] = 0
highest (v ∷ vs) = let rest = highest vs in if ltb rest v then v else rest

abbrev pub cancel_run : ℕ → StoredTripRun → Result RunError (TripRunResource × StoredTripRun)
cancel_run now run =
    let resource = record run.resource {
      state = TripRunState.cancelled;
      updated_at = now;
      result_available = false;
    } in
    ok (resource, record run { resource = resource })

abbrev pub clarify_run :
    ClarificationAnswer → ℕ → StoredTripRun → Result RunError (TripRunResource × StoredTripRun)
clarify_run answer now run =
    let answers = run.answers ++ answer ∷ [] in
    let resource = record run.resource { clarification_answers = answers; updated_at = now } in
    if is_cancelled run.resource.state
    then err conflict
    else ok (resource, record run { answers = answers; resource = resource })

abbrev pub outdated : Option ℕ → ℕ → Bool
outdated none current = false
outdated (some base) current = not (nat_beq base current)

abbrev pub not_current : RunVersionSummary → RunVersionSummary
not_current item = record item { current = false }

abbrev pub restore_run :
    ℕ → ℕ → StoredTripRun → Result RunError (TripRunResultResponse × StoredTripRun)
restore_run version now run = or_error (Dict.get run.versions version) not_found >>= λ restored.
    ok (
      restored,
      record run {
        result = restored;
        resource = record run.resource { current_version = version; updated_at = now };
        version_summaries =
            map
              (λ (item : RunVersionSummary). record item { current = nat_beq item.version version })
              run.version_summaries;
      },
    )

module _ (backend : Backend) where
  -- `replan`, once the instruction is applied.
  abbrev pub next_version_of :
      String → ℕ → StoredTripRun → FinalPlanBundle → TripRunResultResponse × StoredTripRun
  next_version_of instruction now run bundle =
      let version = highest (keys run.versions) + 1 in
      let result = record run.result {
        version = version;
        bundle = bundle;
        markdown = backend.render_markdown bundle;
      } in
      (
        result,
        record run {
          versions = Dict.put run.versions version result;
          result = result;
          version_summaries =
              map not_current run.version_summaries
              ++ record {
                version = version;
                instruction = instruction;
                created_at = now;
                changed_task_ids =
                    "itinerary_planning" ∷ "critic_review" ∷ "final_aggregation" ∷ [];
                invalidated_artifact_ids =
                    "artifact_candidates_fixture" ∷ "artifact_review_fixture"
                    ∷ "artifact_final_bundle_fixture" ∷ [];
                current = true;
              }
                ∷ [];
          resource = record run.resource { current_version = version; updated_at = now };
        },
      )

  abbrev pub replan_run :
      ReplanRequest → ℕ → StoredTripRun → Result RunError (TripRunResultResponse × StoredTripRun)
  replan_run request now run =
      if is_cancelled run.resource.state
      then err conflict
      else if leb 3 (length run.versions)
      then err conflict
      else if outdated request.base_version run.resource.current_version
      then err conflict
      else or_error (apply_instruction run.result.bundle request.instruction now) uncaught
        >>= λ bundle. ok (next_version_of request.instruction now run bundle)
