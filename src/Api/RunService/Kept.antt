-- ===== src/Api/RunService/Kept.antt =====
-- A property of every stored run that each request to the run service keeps.
use multi_agent_based_intell.Prelude.{
  ℕ, String, ◌≡◌, refl, sym, subst, not, Option, none, some, Result, ok, err, ◌>>=◌, arith, ◌==◌,
  string_eq, All, All_mem, if_both, inl, inr, Option-cases,
}
use Prim.Native.String as Text
use multi_agent_based_intell.Prelude.Dict
use multi_agent_based_intell.Prelude.Dict.{Dict, keys}
use multi_agent_based_intell.Prelude.Sorting.{All-select}
use multi_agent_based_intell.Domain.TripRequest.{TripRequest}
use multi_agent_based_intell.Api.RunModels.{ClarificationAnswer, ReplanRequest}
use multi_agent_based_intell.Api.RunService.Versions.{Leaves}
use multi_agent_based_intell.Api.RunService.Runs.{
  RunError, StoredTripRun, Backend, cancel_run, clarify_run, replan_run, restore_run,
}
use multi_agent_based_intell.Api.RunService.Requests.{
  Call, creating, cancelling, clarifying, replanning, restoring, deleting, serve,
}
use multi_agent_based_intell.Api.RunService.{
  RunService, Reply, authorized, written, on_run, initial_run, create_by, create,
  is_fixture_request, deleted, delete,
}

-- A run that a caller may use is stored under its identifier.
pub authorized_stored :
    (backend : Backend) (s : RunService) (run_id token : String) (run : StoredTripRun)
    → authorized backend s run_id token ≡ ok run
    → Dict.get s.runs run_id ≡ some run
unfolding authorized
authorized_stored backend s run_id token run h = elim (Option-cases (Dict.get s.runs run_id)) [
  | inl missing ↦ ground arith
  | inr (found, at) ↦ ground arith
]

-- The property of a run under its identifier that every request keeps.
module _ (backend : Backend) (P : String → StoredTripRun → Type 0) where
  abbrev pub AllRuns : RunService → Type 0
  AllRuns s = All (λ entry. P entry.0 entry.1) s.runs

  pub record IsKept : Type 0 where
    pub cancelled :
        (run_id : String) (now : ℕ) (run : StoredTripRun)
        → P run_id run
        → Leaves (P run_id) (cancel_run now run)
    pub clarified :
        (run_id : String) (answer : ClarificationAnswer) (now : ℕ) (run : StoredTripRun)
        → P run_id run
        → Leaves (P run_id) (clarify_run answer now run)
    pub replanned :
        (run_id : String) (request : ReplanRequest) (now : ℕ) (run : StoredTripRun)
        → P run_id run
        → Leaves (P run_id) (replan_run backend request now run)
    pub restored :
        (run_id : String) (version now : ℕ) (run : StoredTripRun)
        → P run_id run
        → Leaves (P run_id) (restore_run version now run)

  written-All :
      {A : Type 0} (s : RunService) (run_id : String)
      (step : StoredTripRun → Result RunError (A × StoredTripRun))
      (found : Result RunError StoredTripRun)
      → ((run : StoredTripRun) → found ≡ ok run → Leaves (P run_id) (step run))
      → AllRuns s
      → AllRuns (written s run_id (found >>= step)).1
  written-All s run_id step (err e) keeps all = all
  written-All {A = A} s run_id step (ok run) keeps all = of_reply (step run) (keeps run refl)
    where
      of_reply :
          (r : Result RunError (A × StoredTripRun))
          → Leaves (P run_id) r
          → AllRuns (written s run_id r).1
      of_reply (err e) p = all
      of_reply (ok (a, after)) p =
          Dict.All-put (λ entry. P entry.0 entry.1) s.runs run_id after
            (λ j e. subst (λ i. P i after) (sym e) p) all

  on_run-All :
      {A : Type 0} (step : StoredTripRun → Result RunError (A × StoredTripRun)) (s : RunService)
      (run_id token : String)
      → ((run : StoredTripRun) → P run_id run → Leaves (P run_id) (step run))
      → AllRuns s
      → AllRuns (on_run backend step s run_id token).1
  unfolding on_run
  on_run-All step s run_id token keeps all =
      written-All s run_id step (authorized backend s run_id token)
        (λ run h. keeps run (
          All_mem (λ entry. P entry.0 entry.1) s.runs all
            (Dict.mem_of_get s.runs (authorized_stored backend s run_id token run h))))
        all

  -- The run that a request to create may store has the property.
  abbrev pub Fits : RunService → Call → Type 0
  Fits s (creating request key model_id fresh now) =
      P (Text.◌++◌ "run_" fresh)
        (initial_run backend s (Text.◌++◌ "run_" fresh) request model_id now)
  Fits s _ = Unit

  create_by-All :
      (s : RunService) (request : TripRequest) (key model_id fresh : String) (now : ℕ)
      (entry : Option (String × String))
      → Fits s (creating request key model_id fresh now)
      → AllRuns s
      → AllRuns (create_by backend s request key model_id fresh now entry).1
  create_by-All s request key model_id fresh now none fits all =
      let run_id = Text.◌++◌ "run_" fresh in
      let run = initial_run backend s run_id request model_id now in
      Dict.All-put (λ entry. P entry.0 entry.1) s.runs run_id run
        (λ j e. subst (λ i. P i run) (sym e) fits) all
  create_by-All s request key model_id fresh now (some entry) fits all = all

  deleted-All :
      (s : RunService) (run_id : String) (found : Result RunError StoredTripRun)
      → AllRuns s
      → AllRuns (deleted s run_id found).1
  deleted-All s run_id (err e) all = all
  deleted-All s run_id (ok run) all =
      All-select (λ (entry : String × StoredTripRun). P entry.0 entry.1)
        (λ entry. not (entry.0 == run_id)) s.runs all

  pub serve-All :
      IsKept
      → (s : RunService) (call : Call) → Fits s call
      → AllRuns s
      → AllRuns (serve backend s call)
  unfolding create delete
  serve-All kept s (creating request key model_id fresh now) fits all =
      if_both (λ (r : Reply _). AllRuns r.1) (is_fixture_request request)
        (λ e. create_by-All s request key model_id fresh now (Dict.get s.idempotency key) fits all)
        (λ e. all)
  serve-All kept s (cancelling run_id token now) fits all =
      on_run-All (cancel_run now) s run_id token (kept.cancelled run_id now) all
  serve-All kept s (clarifying run_id token answer now) fits all =
      on_run-All (clarify_run answer now) s run_id token (kept.clarified run_id answer now) all
  serve-All kept s (replanning run_id token request now) fits all =
      on_run-All (replan_run backend request now) s run_id token (kept.replanned run_id request now)
        all
  serve-All kept s (restoring run_id token version now) fits all =
      on_run-All (restore_run version now) s run_id token (kept.restored run_id version now) all
  serve-All kept s (deleting run_id token) fits all =
      deleted-All s run_id (authorized backend s run_id token) all
