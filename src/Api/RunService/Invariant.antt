-- ===== src/Api/RunService/Invariant.antt =====
-- What the run service keeps between requests: its soundness.
use multi_agent_based_intell.Prelude.{
  String, ◌≡◌, refl, sym, subst, true, Option, none, some, List, [], ◌∷◌, Result, ok, err,
  string_eq, All, contains, is_unique, if_both,
}
use Prim.Native.String as Text
use multi_agent_based_intell.Prelude.Dict
use multi_agent_based_intell.Prelude.Dict.{Dict, keys}
use multi_agent_based_intell.Api.RunService.Versions.{
  IsSoundRun, initial_run-IsSoundRun, cancel_run-Keeps, clarify_run-Keeps, replan_run-Keeps,
  restore_run-Keeps,
}
use multi_agent_based_intell.Api.RunService.Runs.{RunError, StoredTripRun, Backend}
use multi_agent_based_intell.Api.RunService.Requests.{
  Call, creating, cancelling, clarifying, replanning, restoring, deleting, serve, serve_all,
}
use multi_agent_based_intell.Api.RunService.{
  RunService, Reply, authorized, written, on_run, create_by, create, is_fixture_request, deleted,
  delete,
}
use multi_agent_based_intell.Api.RunService.Kept.{AllRuns, IsKept, Fits, serve-All}
use multi_agent_based_intell.Api.RunService.Leads.{serve-KeysLead}

-- Run identifiers are distinct, every stored run is sound, with the token issued for it, and every
-- idempotency key leads to a stored run.
pub record IsSound (backend : Backend) (s : RunService) : Type 0 where
  pub sound_runs :
      All
        (λ entry. IsSoundRun (backend.hash_token (backend.hmac s.token_secret entry.0)) entry.1)
        s.runs
  pub distinct : is_unique (keys s.runs) ≡ true
  pub keys_lead : All (λ entry. contains (keys s.runs) entry.1.0 ≡ true) s.idempotency

sound_kept :
    (backend : Backend) (secret : String)
    → IsKept backend (λ run_id. IsSoundRun (backend.hash_token (backend.hmac secret run_id)))
sound_kept backend secret = record {
  cancelled = λ run_id. cancel_run-Keeps _;
  clarified = λ run_id. clarify_run-Keeps _;
  replanned = λ run_id. replan_run-Keeps _ backend;
  restored = λ run_id. restore_run-Keeps _;
}

written_secret :
    {A : Type 0} (s : RunService) (run_id : String) (r : Result RunError (A × StoredTripRun))
    → (written s run_id r).1.token_secret ≡ s.token_secret
written_secret s run_id (err e) = refl
written_secret s run_id (ok (a, run)) = refl

deleted_secret :
    (s : RunService) (run_id : String) (found : Result RunError StoredTripRun)
    → (deleted s run_id found).1.token_secret ≡ s.token_secret
deleted_secret s run_id (err e) = refl
deleted_secret s run_id (ok run) = refl

serve-token_secret :
    (backend : Backend) (s : RunService) (call : Call)
    → (serve backend s call).token_secret ≡ s.token_secret
unfolding create delete on_run
serve-token_secret backend s (creating request key model_id fresh now) =
    if_both (λ (r : Reply _). r.1.token_secret ≡ s.token_secret) (is_fixture_request request)
      (λ e. created (Dict.get s.idempotency key)) (λ e. refl)
  where
    created :
        (entry : Option (String × String))
        → (create_by backend s request key model_id fresh now entry).1.token_secret ≡ s.token_secret
    created none = refl
    created (some entry) = refl
serve-token_secret backend s (cancelling run_id token now) = written_secret s run_id _
serve-token_secret backend s (clarifying run_id token answer now) = written_secret s run_id _
serve-token_secret backend s (replanning run_id token request now) = written_secret s run_id _
serve-token_secret backend s (restoring run_id token version now) = written_secret s run_id _
serve-token_secret backend s (deleting run_id token) =
    deleted_secret s run_id (authorized backend s run_id token)

pub serve-IsSound :
    (backend : Backend) (s : RunService) (call : Call)
    → IsSound backend s
    → IsSound backend (serve backend s call)
serve-IsSound backend s call v = record {
  sound_runs =
      subst
        (λ secret.
          AllRuns backend (λ run_id. IsSoundRun (backend.hash_token (backend.hmac secret run_id)))
            (serve backend s call))
        (sym (serve-token_secret backend s call))
        (serve-All backend _ (sound_kept backend s.token_secret) s call (fits call) v.sound_runs);
  distinct = (serve-KeysLead backend s call (v.distinct, v.keys_lead)).0;
  keys_lead = (serve-KeysLead backend s call (v.distinct, v.keys_lead)).1;
}
  where
    fits :
        (call : Call)
        → Fits backend
            (λ run_id. IsSoundRun (backend.hash_token (backend.hmac s.token_secret run_id)))
            s
            call
    fits (creating request key model_id fresh now) =
        initial_run-IsSoundRun backend s (Text.◌++◌ "run_" fresh) request model_id now
    fits (cancelling run_id token now) = tt
    fits (clarifying run_id token answer now) = tt
    fits (replanning run_id token request now) = tt
    fits (restoring run_id token version now) = tt
    fits (deleting run_id token) = tt

-- Requests, however many, leave a sound service sound: run identifiers are distinct, idempotency
-- keys lead to stored runs, and each run has the hash of the token issued for it, the versions 1 to
-- n for some n up to 3, a summary of each with the current one marked, the result of the current
-- version, its answers in its resource, and a result available exactly while it is not cancelled.
pub serve_all-IsSound :
    (backend : Backend) (s : RunService) (calls : List Call)
    → IsSound backend s
    → IsSound backend (serve_all backend s calls)
unfolding serve_all
serve_all-IsSound backend s [] v = v
serve_all-IsSound backend s (call ∷ calls) v =
    serve_all-IsSound backend (serve backend s call) calls (serve-IsSound backend s call v)
