-- ===== src/Api/RunService/Tests.antt =====
-- A service with one run, which is created and cancelled.
use multi_agent_based_intell.Prelude.{
  String, ◌≡◌, ◌≢◌, refl, Bool, true, false, List, [], ◌∷◌, Result, ok, err, arith, eq_iff,
}
use Prim.Native.String as Text
use multi_agent_based_intell.Prelude.Dict
use multi_agent_based_intell.Domain.Json.{null}
use multi_agent_based_intell.Domain.Messaging.{Freshness}
use multi_agent_based_intell.Domain.TripRequest.{duration_days}
use multi_agent_based_intell.Domain.Validators.Samples.{request}
use multi_agent_based_intell.Api.RunModels.{TripRunResource}
use multi_agent_based_intell.Api.RunService.Runs.{RunError, Backend}
use multi_agent_based_intell.Api.RunService.Readers.{result}
use multi_agent_based_intell.Api.RunService.Requests.{
  Call, creating, cancelling, restoring, serve_all,
}
use multi_agent_based_intell.Api.RunService.{RunService, create, authorized, on_run, cancel}
use multi_agent_based_intell.Api.RunService.Invariant.{IsSound, serve_all-IsSound}
use multi_agent_based_intell.Api.RunService.Access.{
  Refused, foreign_token-Refused, cancelled_never_shown,
}
use multi_agent_based_intell.Api.RunService.Creation.{create_twice}
use multi_agent_based_intell.Api.RunService.Instruction.{has_part}

abbrev backend : Backend
backend = record {
  request_digest = λ request model_id. model_id;
  hmac = λ secret run_id. Text.◌++◌ secret run_id;
  hash_token = λ token. token;
  fixture_bundle = λ run_id request now. record {
    run_id = run_id;
    request_summary = request;
    assumptions = [];
    plans = [];
    comparison = [];
    evidence = [];
    collaboration_summary = record {
      participating_agents = [];
      completed_task_count = 6;
      revision_rounds = 0;
      notes = [];
    };
    generated_at = now;
    data_freshness = record {
      overall = Freshness.fresh;
      oldest_retrieved_at = now;
      stale_evidence_count = 0;
      unknown_evidence_count = 0;
    };
  };
  render_markdown = λ bundle. bundle.run_id;
  model_dump = λ bundle. null;
  dump_json = λ bundle. bundle.run_id;
  map_points = [];
}

abbrev empty_service : RunService
empty_service = record { runs = []; idempotency = []; token_secret = "s" }

empty-IsSound : IsSound backend empty_service
empty-IsSound = record { sound_runs = tt; distinct = refl; keys_lead = tt }

abbrev calls : List Call
calls = creating request "key" "model" "1" 5 ∷ cancelling "run_1" "srun_1" 6 ∷ []

serve_all-IsSound_example : IsSound backend (serve_all backend empty_service calls)
serve_all-IsSound_example = serve_all-IsSound backend empty_service calls empty-IsSound

abbrev service : RunService
service = serve_all backend empty_service (creating request "key" "model" "1" 5 ∷ [])

service-IsSound : IsSound backend service
service-IsSound = serve_all-IsSound backend empty_service _ empty-IsSound

abbrev guess : String
guess = "guess"

foreign : Text.◌++◌ "s" "run_1" ≢ guess
foreign e = absurd (ground (arith, eq_iff "srun_1" guess))

foreign_token-Refused_example : (e : RunError) × Refused backend service "run_1" guess e
unfolding serve_all create duration_days Dict.get
foreign_token-Refused_example =
    foreign_token-Refused backend service "run_1" guess service-IsSound foreign

abbrev is_made : {A : Type 0} → Result RunError A → Bool
is_made (err e) = false
is_made (ok a) = true

-- The owner sees the result before the cancellation.
shown : is_made (result backend service "run_1" "srun_1") ≡ true
unfolding serve_all create duration_days Dict.get Dict.put result authorized
shown = refl

cancels :
    (resource : TripRunResource) × ((cancel backend service "run_1" "srun_1" 6).0 ≡ ok resource)
unfolding serve_all create duration_days Dict.get Dict.put on_run authorized
cancels = (_, refl)

abbrev later : List Call
later = restoring "run_1" "srun_1" 1 8 ∷ creating request "other" "model" "2" 9 ∷ []

cancelled_never_shown_example :
    (e : RunError) × (result backend
        (serve_all backend (cancel backend service "run_1" "srun_1" 6).1 later)
        "run_1"
        "srun_1"
      ≡ err e)
cancelled_never_shown_example =
    cancelled_never_shown backend service "run_1" "srun_1" 6 cancels.0 later "srun_1"
      service-IsSound cancels.1 refl

create_twice_example :
    create backend
      (create backend empty_service request "key" "model" "1" 5).1
      request
      "key"
      "model"
      "2"
      9
    ≡ create backend empty_service request "key" "model" "1" 5
create_twice_example = create_twice backend empty_service request "key" "model" "1" "2" 5 9

asks : has_part "再轻松一些" "轻松" ≡ true
asks = refl

asks_not : has_part "多看一个景点" "轻松" ≡ false
asks_not = refl
