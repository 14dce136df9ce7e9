-- ===== src/Api/RunService/Access.antt =====
-- Who may use a run, and for how long its result is shown.
use multi_agent_based_intell.Prelude.{
  ℕ, String, ◌≡◌, ◌≢◌, refl, sym, ap, ◌∙◌, Bool, true, false, not, some, List, [], ◌∷◌, Result, ok,
  err, ◌>>=◌, arith, ◌==◌, string_eq, All, All_mem, if_both, inl, inr, Option-cases, eq_iff, leb,
  length, all_of, All-of_mem, >>=-eq-ok, is_unique, nat_eq,
}
use multi_agent_based_intell.Api.RunService.Instruction.{apply_instruction}
use Prim.Native.String as Text
use multi_agent_based_intell.Prelude.Dict
use multi_agent_based_intell.Prelude.Dict.{Dict, keys}
use multi_agent_based_intell.Api.RunModels.{
  is_cancelled, ClarificationAnswer, ReplanRequest, TripRunResource, TripRunResultResponse,
}
use multi_agent_based_intell.Api.RunService.Versions.{Leaves, IsSoundRun}
use multi_agent_based_intell.Api.RunService.Kept.{
  IsKept, AllRuns, Fits, serve-All, authorized_stored,
}
use multi_agent_based_intell.Api.RunService.Invariant.{IsSound, serve-IsSound, serve_all-IsSound}
use multi_agent_based_intell.Api.RunService.Runs.{
  RunError, StoredTripRun, Backend, cancel_run, outdated,
}
use multi_agent_based_intell.Api.RunService.Readers.{
  get, result, comparison, versions, diff, export,
}
use multi_agent_based_intell.Api.RunService.Requests.{
  Call, creating, cancelling, clarifying, replanning, restoring, deleting, serve, serve_all,
}
use multi_agent_based_intell.Api.RunService.{
  RunService, authorized, written, on_run, delete, cancel, clarify, replan, restore,
}

-- Every operation on the run fails with the error, and leaves the service as it is.
pub record Refused (backend : Backend) (s : RunService) (run_id token : String) (e : RunError)
    : Type 0 where
  pub cancelling_fails : (now : ℕ) → cancel backend s run_id token now ≡ (err e, s)
  pub clarifying_fails :
      (answer : ClarificationAnswer) (now : ℕ)
      → clarify backend s run_id token answer now ≡ (err e, s)
  pub replanning_fails :
      (request : ReplanRequest) (now : ℕ) → replan backend s run_id token request now ≡ (err e, s)
  pub restoring_fails : (version now : ℕ) → restore backend s run_id token version now ≡ (err e, s)
  pub deleting_fails : delete backend s run_id token ≡ (err e, s)
  pub get_fails : get backend s run_id token ≡ err e
  pub result_fails : result backend s run_id token ≡ err e
  pub comparison_fails : comparison backend s run_id token ≡ err e
  pub versions_fails : versions backend s run_id token ≡ err e
  pub diff_fails : (before after : ℕ) → diff backend s run_id token before after ≡ err e
  pub export_fails : (format_name : String) → export backend s run_id token format_name ≡ err e

unauthorized-Refused :
    (backend : Backend) (s : RunService) (run_id token : String) (e : RunError)
    → authorized backend s run_id token ≡ err e
    → Refused backend s run_id token e
unfolding on_run delete get result comparison versions diff export
unauthorized-Refused backend s run_id token e h = record {
  cancelling_fails = λ now. rw h refl;
  clarifying_fails = λ answer now. rw h refl;
  replanning_fails = λ request now. rw h refl;
  restoring_fails = λ version now. rw h refl;
  deleting_fails = rw h refl;
  get_fails = rw h refl;
  result_fails = rw h refl;
  comparison_fails = rw h refl;
  versions_fails = rw h refl;
  diff_fails = λ before after. rw h refl;
  export_fails = λ format_name. rw h refl;
}

-- A stored run of a sound service has its property.
stored-IsSoundRun :
    (backend : Backend) (s : RunService) (run_id : String) (run : StoredTripRun)
    → IsSound backend s
    → Dict.get s.runs run_id ≡ some run
    → IsSoundRun (backend.hash_token (backend.hmac s.token_secret run_id)) run
stored-IsSoundRun backend s run_id run v at =
    All_mem
      (λ (entry : String × StoredTripRun).
        IsSoundRun (backend.hash_token (backend.hmac s.token_secret entry.0)) entry.1)
      s.runs v.sound_runs (Dict.mem_of_get s.runs at)

-- In a sound service, a token whose hash is not that of the token issued for the run has every
-- operation on the run refused, with one error, and changes nothing.
pub foreign_token-Refused :
    (backend : Backend) (s : RunService) (run_id token : String)
    → IsSound backend s
    → backend.hash_token (backend.hmac s.token_secret run_id) ≢ backend.hash_token token
    → (e : RunError) × Refused backend s run_id token e
unfolding authorized
foreign_token-Refused backend s run_id token v foreign =
    elim (Option-cases (Dict.get s.runs run_id)) [
      | inl missing ↦
          (RunError.not_found, unauthorized-Refused backend s run_id token _ (rw missing refl))
      | inr (run, at) ↦
          let sound = stored-IsSoundRun backend s run_id run v at in
          (
            RunError.access_denied,
            unauthorized-Refused backend s run_id token _ (
                rw at (
                  ground (
                    arith,
                    sound.owned,
                    foreign,
                    eq_iff run.token_hash (backend.hash_token token),
                  ))),
          )
    ]

-- A run under the identifier is cancelled.
abbrev Cancelled : String → String → StoredTripRun → Type 0
Cancelled run_id other run = other ≡ run_id → is_cancelled run.resource.state ≡ true

Cancelled-kept : (backend : Backend) (run_id : String) → IsKept backend (Cancelled run_id)
Cancelled-kept backend run_id = record {
  cancelled = λ other now run h same. refl;
  clarified = λ other answer now run h.
      if_both (Leaves (Cancelled run_id other)) (is_cancelled run.resource.state) (λ e. tt)
        (λ e. h);
  replanned = λ other request now run h.
      if_both (Leaves (Cancelled run_id other)) (is_cancelled run.resource.state) (λ e. tt)
        λ live.
          if_both (Leaves (Cancelled run_id other)) (leb 3 (length run.versions)) (λ e. tt)
            λ e.
              if_both (Leaves (Cancelled run_id other))
                (outdated request.base_version run.resource.current_version) (λ e. tt)
                λ e.
                  elim (Option-cases
                    (apply_instruction run.result.bundle request.instruction now)) [
                      | inl failed ↦ rw failed tt
                      | inr (bundle, made) ↦ rw made h
                    ];
  restored = λ other version now run h. elim (Option-cases (Dict.get run.versions version)) [
    | inl missing ↦ rw missing tt
    | inr (found, at) ↦ rw at h
  ];
}

-- `creating` a run with this identifier.
abbrev pub recreates : String → Call → Bool
recreates run_id (creating request key model_id fresh now) = Text.◌++◌ "run_" fresh == run_id
recreates run_id _ = false

Cancelled-Fits :
    (backend : Backend) (s : RunService) (run_id : String) (call : Call)
    → recreates run_id call ≡ false
    → Fits backend (Cancelled run_id) s call
Cancelled-Fits backend s run_id (creating request key model_id fresh now) h =
    λ same. absurd (ground (arith, eq_iff (Text.◌++◌ "run_" fresh) run_id))
Cancelled-Fits backend s run_id (cancelling other token now) h = tt
Cancelled-Fits backend s run_id (clarifying other token answer now) h = tt
Cancelled-Fits backend s run_id (replanning other token request now) h = tt
Cancelled-Fits backend s run_id (restoring other token version now) h = tt
Cancelled-Fits backend s run_id (deleting other token) h = tt

serve_all-Cancelled :
    (backend : Backend) (s : RunService) (run_id : String) (calls : List Call)
    → all_of (λ call. not (recreates run_id call)) calls ≡ true
    → AllRuns backend (Cancelled run_id) s
    → AllRuns backend (Cancelled run_id) (serve_all backend s calls)
unfolding serve_all
serve_all-Cancelled backend s run_id [] h all = all
serve_all-Cancelled backend s run_id (call ∷ calls) h all =
    serve_all-Cancelled backend (serve backend s call) run_id calls (ground arith) (
      serve-All backend (Cancelled run_id) (Cancelled-kept backend run_id) s call
        (Cancelled-Fits backend s run_id call (ground arith)) all)

-- In a sound service a cancelled run has no result.
hidden :
    (backend : Backend) (s : RunService) (run_id token : String)
    → IsSound backend s
    → AllRuns backend (Cancelled run_id) s
    → (response : TripRunResultResponse) → result backend s run_id token ≢ ok response
unfolding result
hidden backend s run_id token v all response h =
    let (run, found, shown) = >>=-eq-ok (authorized backend s run_id token) _ h in
    let at = authorized_stored backend s run_id token run found in
    let cancelled_run =
      All_mem (λ (entry : String × StoredTripRun). Cancelled run_id entry.0 entry.1) s.runs all
        (Dict.mem_of_get s.runs at) refl in
    let sound = stored-IsSoundRun backend s run_id run v at in
    absurd (ground (arith, shown, sound.shown, cancelled_run))

put-Cancelled :
    (runs : Dict String StoredTripRun) (run_id : String) (run : StoredTripRun)
    → is_unique (keys runs) ≡ true
    → is_cancelled run.resource.state ≡ true
    → All (λ entry. Cancelled run_id entry.0 entry.1) (Dict.put runs run_id run)
put-Cancelled runs run_id run distinct e =
    All-of_mem (Dict.put runs run_id run) λ (entry : String × StoredTripRun) m same.
      let at =
        Dict.get_of_mem (Dict.put runs run_id run) (Dict.put-is_unique runs run_id run distinct)
          m in
      let written : some run ≡ some entry.1 =
        sym (Dict.get-put_self runs run_id run)
        ∙ ap (Dict.get (Dict.put runs run_id run)) (sym same)
        ∙ at in
      cc (e, written)

-- A run that `cancel` accepts is cancelled, and it is the only one under its identifier.
cancel-Cancelled :
    (backend : Backend) (s : RunService) (run_id token : String) (now : ℕ)
    (resource : TripRunResource)
    → is_unique (keys s.runs) ≡ true
    → (cancel backend s run_id token now).0 ≡ ok resource
    → AllRuns backend (Cancelled run_id) (cancel backend s run_id token now).1
unfolding on_run
cancel-Cancelled backend s run_id token now resource distinct =
    by_reply (authorized backend s run_id token)
  where
    by_reply :
        (found : Result RunError StoredTripRun)
        → (written s run_id (found >>= cancel_run now)).0 ≡ ok resource
        → AllRuns backend (Cancelled run_id) (written s run_id (found >>= cancel_run now)).1
    by_reply (err e) h = absurd (cc)
    by_reply (ok run) h = put-Cancelled s.runs run_id _ distinct refl

never_ok :
    {A : Type 0} (r : Result RunError A) → ((a : A) → r ≢ ok a) → (e : RunError) × (r ≡ err e)
never_ok (err e) never = (e, refl)
never_ok (ok a) never = absurd (never a refl)

-- In a sound service, once `cancel` has accepted a run, `result` fails for every token after any
-- later requests, unless one of them creates a run with the same identifier.
pub cancelled_never_shown :
    (backend : Backend) (s : RunService) (run_id token : String) (now : ℕ)
    (resource : TripRunResource) (calls : List Call) (any_token : String)
    → IsSound backend s
    → (cancel backend s run_id token now).0 ≡ ok resource
    → all_of (λ call. not (recreates run_id call)) calls ≡ true
    → (e : RunError) × (result backend
          (serve_all backend (cancel backend s run_id token now).1 calls)
          run_id
          any_token
        ≡ err e)
cancelled_never_shown backend s run_id token now resource calls any_token v accepted later =
    let after = (cancel backend s run_id token now).1 in
    let sound =
      serve_all-IsSound backend after calls
        (serve-IsSound backend s (cancelling run_id token now) v) in
    let all =
      serve_all-Cancelled backend after run_id calls later
        (cancel-Cancelled backend s run_id token now resource v.distinct accepted) in
    never_ok _ (hidden backend (serve_all backend after calls) run_id any_token sound all)
