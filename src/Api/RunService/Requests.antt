-- ===== src/Api/RunService/Requests.antt =====
-- The requests that change the service of apps/api/run_service.py, one after another.
use multi_agent_based_intell.Prelude.{ℕ, String, List, [], ◌∷◌, string_eq, nat_eq}
use multi_agent_based_intell.Domain.TripRequest.{TripRequest}
use multi_agent_based_intell.Api.RunModels.{ClarificationAnswer, ReplanRequest}
use multi_agent_based_intell.Api.RunService.Runs.{Backend}
use multi_agent_based_intell.Api.RunService.{
  RunService, create, cancel, clarify, replan, restore, delete,
}

-- The requests that change the service, with what each reads of the clock and of chance.
pub data Call : Type 0 where
  creating : TripRequest → (key model_id fresh : String) → (now : ℕ) → Call
  cancelling : (run_id token : String) → (now : ℕ) → Call
  clarifying : (run_id token : String) → ClarificationAnswer → (now : ℕ) → Call
  replanning : (run_id token : String) → ReplanRequest → (now : ℕ) → Call
  restoring : (run_id token : String) → (version now : ℕ) → Call
  deleting : (run_id token : String) → Call

abbrev pub serve : Backend → RunService → Call → RunService
serve backend s (creating request key model_id fresh now) =
    (create backend s request key model_id fresh now).1
serve backend s (cancelling run_id token now) = (cancel backend s run_id token now).1
serve backend s (clarifying run_id token answer now) = (clarify backend s run_id token answer now).1
serve backend s (replanning run_id token request now) =
    (replan backend s run_id token request now).1
serve backend s (restoring run_id token version now) =
    (restore backend s run_id token version now).1
serve backend s (deleting run_id token) = (delete backend s run_id token).1

unfoldable pub serve_all : Backend → RunService → List Call → RunService
serve_all backend s [] = s
serve_all backend s (call ∷ calls) = serve_all backend (serve backend s call) calls
