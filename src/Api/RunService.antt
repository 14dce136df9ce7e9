-- ===== src/Api/RunService.antt =====
-- apps/api/run_service.py: the state of `InMemoryTripRunService` and its operations. The fixture
-- bundle, its rendering and its JSON, digests, random ids and the clock are arguments. A stored run
-- is changed in place in the source: here an operation puts back the run that it has changed.
pub mod Instruction
pub mod Runs
pub mod Readers
pub mod Requests
pub mod Paths
pub mod Versions
mod Numbering
mod Kept
mod Leads
pub mod Invariant
mod Access
mod Creation
mod Tests
use multi_agent_based_intell.Prelude.{
  ℕ, ◌+◌, String, Bool, true, false, not, ◌&&◌, Option, none, some, [], ◌∷◌, ◌++◌, Result, ok, err,
  ◌>>=◌, nat_beq, ◌==◌, string_eq, nat_eq, select, if◌then◌else◌,
}
use Prim.Native.String as Text
use multi_agent_based_intell.Prelude.Dict
use multi_agent_based_intell.Prelude.Dict.{Dict}
use multi_agent_based_intell.Domain.TripRequest.{TripRequest, duration_days}
use multi_agent_based_intell.Api.RunModels.{
  TripRunState, ClarificationAnswer, TripRunResource, TripRunCreated, TripRunResultResponse,
  ReplanRequest,
}
use multi_agent_based_intell.Api.RunService.Runs.{
  RunError, not_found, conflict, access_denied, StoredTripRun, Backend, or_error, cancel_run,
  clarify_run, restore_run, replan_run,
}

pub record RunService : Type 0 where
  pub runs : Dict String StoredTripRun
  pub idempotency : Dict String (String × String)
  pub token_secret : String

abbrev pub Reply : Type 0 → Type 0
Reply A = Result RunError A × RunService

-- `_stored`
abbrev pub stored : RunService → String → Result RunError StoredTripRun
stored s run_id = or_error (Dict.get s.runs run_id) not_found

-- `request.destination != "北京" or request.duration_days != 1`, negated; `none` if the duration fails.
abbrev is_one : Option ℕ → Bool
is_one none = false
is_one (some n) = nat_beq n 1

abbrev pub is_fixture_request : TripRequest → Bool
is_fixture_request request = request.destination == "北京" && is_one (duration_days request)

-- `del self._runs[run_id]`
abbrev pub remove : {V : Type 0} → String → Dict String V → Dict String V
remove run_id d = select (λ entry. not (entry.0 == run_id)) d

abbrev pub deleted : RunService → String → Result RunError StoredTripRun → Reply (Unit {0})
deleted s run_id (err e) = (err e, s)
deleted s run_id (ok run) = (
  ok tt,
  record s {
    runs = remove run_id s.runs;
    idempotency =
        select (λ (entry : String × (String × String)). not (entry.1.0 == run_id)) s.idempotency;
  },
)

-- Writes back what an operation has made of a stored run.
abbrev pub written :
    {A : Type 0} → RunService → String → Result RunError (A × StoredTripRun) → Reply A
written s run_id (err e) = (err e, s)
written s run_id (ok (a, run)) = (ok a, record s { runs = Dict.put s.runs run_id run })

module _ (backend : Backend) where
  -- `_authorized`
  unfoldable pub authorized : RunService → String → String → Result RunError StoredTripRun
  authorized s run_id access_token = stored s run_id >>= λ run.
      if run.token_hash == backend.hash_token access_token then ok run else err access_denied

  abbrev pub initial_run : RunService → String → TripRequest → String → ℕ → StoredTripRun
  initial_run s run_id request model_id now =
      let bundle = backend.fixture_bundle run_id request now in
      let result : TripRunResultResponse = record {
        run_id = run_id;
        version = 1;
        bundle = bundle;
        map_points = backend.map_points;
        markdown = backend.render_markdown bundle;
      } in
      record {
        resource = record {
          run_id = run_id;
          state = TripRunState.succeeded;
          fixture_mode = true;
          model_provider = "penguin";
          model_id = model_id;
          request = request;
          created_at = now;
          updated_at = now;
          result_available = true;
          clarification_answers = [];
          current_version = 1;
        };
        result = result;
        token_hash = backend.hash_token (backend.hmac s.token_secret run_id);
        answers = [];
        versions = (1, result) ∷ [];
        version_summaries =
            record {
              version = 1;
              instruction = "初始生成";
              created_at = now;
              changed_task_ids =
                  "destination_intelligence" ∷ "mobility_lodging" ∷ "build_route_matrix"
                  ∷ "itinerary_planning" ∷ "critic_review" ∷ "final_aggregation" ∷ [];
              invalidated_artifact_ids = [];
              current = true;
            }
            ∷ [];
      }

  -- A first request under its key; `fresh` is `token_hex(8)`.
  abbrev pub create_new :
      RunService → TripRequest → String → String → (fresh : String) → ℕ → Reply TripRunCreated
  create_new s request key model_id fresh now =
      let run_id = Text.◌++◌ "run_" fresh in
      let run = initial_run s run_id request model_id now in
      (
        ok (record { run = run.resource; access_token = backend.hmac s.token_secret run_id }),
        record s {
          runs = Dict.put s.runs run_id run;
          idempotency =
              Dict.put s.idempotency key (run_id, backend.request_digest request model_id);
        },
      )

  -- A request under a key that has a run.
  abbrev pub create_again :
      RunService → TripRequest → String → String × String → Reply TripRunCreated
  create_again s request model_id (run_id, digest) = (
    if digest == backend.request_digest request model_id
        then (stored s run_id >>= λ run.
            ok (record { run = run.resource; access_token = backend.hmac s.token_secret run_id }))
        else err conflict,
    s,
  )

  abbrev pub create_by :
      RunService
      → TripRequest
      → String
      → String
      → (fresh : String) → ℕ
      → Option (String × String)
      → Reply TripRunCreated
  create_by s request key model_id fresh now none = create_new s request key model_id fresh now
  create_by s request key model_id fresh now (some entry) = create_again s request model_id entry

  unfoldable pub create :
      RunService → TripRequest → String → String → (fresh : String) → ℕ → Reply TripRunCreated
  create s request key model_id fresh now =
      if is_fixture_request request
      then create_by s request key model_id fresh now (Dict.get s.idempotency key)
      else (err conflict, s)

  unfoldable pub on_run :
      {A : Type 0}
      → (StoredTripRun → Result RunError (A × StoredTripRun))
      → RunService
      → String
      → String
      → Reply A
  unfolding authorized
  on_run step s run_id access_token = written s run_id (authorized s run_id access_token >>= step)

  -- The operations that change a run.
  abbrev pub cancel : RunService → String → String → ℕ → Reply TripRunResource
  cancel s run_id token now = on_run (cancel_run now) s run_id token

  abbrev pub clarify :
      RunService → String → String → ClarificationAnswer → ℕ → Reply TripRunResource
  clarify s run_id token answer now = on_run (clarify_run answer now) s run_id token

  abbrev pub replan : RunService → String → String → ReplanRequest → ℕ → Reply TripRunResultResponse
  replan s run_id token request now = on_run (replan_run backend request now) s run_id token

  abbrev pub restore : RunService → String → String → ℕ → ℕ → Reply TripRunResultResponse
  restore s run_id token version now = on_run (restore_run version now) s run_id token

  unfoldable pub delete : RunService → String → String → Reply (Unit {0})
  unfolding authorized
  delete s run_id token = deleted s run_id (authorized s run_id token)
