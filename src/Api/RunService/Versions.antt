-- ===== src/Api/RunService/Versions.antt =====
-- The versions of a run: numbered from 1, each with its summary, one of them current.
use multi_agent_based_intell.Prelude.{
  ℕ, suc, ◌+◌, ◌≤◌, String, ◌≡◌, refl, sym, ap, ◌∙◌, false, not, inl, inr, some, [], ◌∷◌, ◌++◌, map,
  Result, ok, err, arith, leb, nat_eq, string_eq, length, contains, Bool-cases, if_both,
  Option-cases,
}
use multi_agent_based_intell.Prelude.Dict
use multi_agent_based_intell.Prelude.Dict.{Dict, keys}
use multi_agent_based_intell.Domain.TripRequest.{TripRequest}
use multi_agent_based_intell.Domain.Bundle.{FinalPlanBundle}
use multi_agent_based_intell.Api.RunModels.{
  is_cancelled, TripRunResultResponse, ClarificationAnswer, ReplanRequest, RunVersionSummary,
}
use multi_agent_based_intell.Api.RunService.Instruction.{apply_instruction}
use multi_agent_based_intell.Api.RunService.Runs.{
  RunError, StoredTripRun, Backend, highest, not_current, next_version_of, cancel_run, clarify_run,
  replan_run, restore_run, outdated,
}
use multi_agent_based_intell.Api.RunService.{initial_run, RunService}
use multi_agent_based_intell.Api.RunService.Numbering.{
  up_to, length-up_to, up_to_bounded, bounded-contains, highest-up_to, put_new, keys-append,
  length-keys, summary_versions, current_flags, flags_of, map-append, cleared_versions, flags_next,
  marked_versions, marked_flags,
}

-- What holds of a stored run between requests.
pub record IsSoundRun (token_hash : String) (run : StoredTripRun) : Type 0 where
  pub owned : run.token_hash ≡ token_hash
  -- A result is shown exactly while the run is not cancelled.
  pub shown : run.resource.result_available ≡ not (is_cancelled run.resource.state)
  -- The versions are 1, …, n in order, and at most two rounds of replanning have been.
  pub count : ℕ
  pub numbered : keys run.versions ≡ up_to count
  pub few : count ≤ 3
  -- There is a summary for each version, and the current one is marked.
  pub summarised : summary_versions run.version_summaries ≡ keys run.versions
  pub flagged :
      current_flags run.version_summaries
      ≡ flags_of run.resource.current_version (keys run.versions)
  -- The result is that of the current version.
  pub current : Dict.get run.versions run.resource.current_version ≡ some run.result
  pub answered : run.resource.clarification_answers ≡ run.answers

pub initial_run-IsSoundRun :
    (backend : Backend) (s : RunService) (run_id : String) (request : TripRequest)
    (model_id : String) (now : ℕ)
    → IsSoundRun
        (backend.hash_token (backend.hmac s.token_secret run_id))
        (initial_run backend s run_id request model_id now)
unfolding Dict.get
initial_run-IsSoundRun backend s run_id request model_id now = record {
  owned = refl;
  shown = refl;
  count = 1;
  numbered = refl;
  few = omega arith;
  summarised = refl;
  flagged = refl;
  current = refl;
  answered = refl;
}

-- A step on a run fails, or leaves a run with the property.
abbrev pub Leaves :
    (StoredTripRun → Type 0) → {A : Type 0} → Result RunError (A × StoredTripRun) → Type 0
Leaves P (err e) = Unit
Leaves P (ok (a, run)) = P run

module _ (token_hash : String) where
  abbrev Keeps : {A : Type 0} → Result RunError (A × StoredTripRun) → Type 0
  Keeps r = Leaves (IsSoundRun token_hash) r

  pub cancel_run-Keeps :
      (now : ℕ) (run : StoredTripRun) → IsSoundRun token_hash run → Keeps (cancel_run now run)
  cancel_run-Keeps now run v = record {
    owned = v.owned;
    shown = refl;
    count = v.count;
    numbered = v.numbered;
    few = v.few;
    summarised = v.summarised;
    flagged = v.flagged;
    current = v.current;
    answered = v.answered;
  }

  pub clarify_run-Keeps :
      (answer : ClarificationAnswer) (now : ℕ) (run : StoredTripRun)
      → IsSoundRun token_hash run
      → Keeps (clarify_run answer now run)
  clarify_run-Keeps answer now run v =
      if_both Keeps (is_cancelled run.resource.state) (λ e. tt)
        λ e. record {
          owned = v.owned;
          shown = v.shown;
          count = v.count;
          numbered = v.numbered;
          few = v.few;
          summarised = v.summarised;
          flagged = v.flagged;
          current = v.current;
          answered = refl;
        }

  -- The new version's number is the next one, and it is new.
  next_key :
      (run : StoredTripRun) (v : IsSoundRun token_hash run)
      → highest (keys run.versions) + 1 ≡ suc v.count
  next_key run v = omega (arith, ap highest v.numbered, highest-up_to v.count)

  next_free :
      (run : StoredTripRun) (v : IsSoundRun token_hash run)
      → contains (keys run.versions) (highest (keys run.versions) + 1) ≡ false
  next_free run v = rw (next_key run v) (
      rw v.numbered
        (bounded-contains (up_to v.count) v.count (up_to_bounded v.count v.count (omega arith))))

  next_version-IsSoundRun :
      (backend : Backend) (instruction : String) (now : ℕ) (run : StoredTripRun)
      (bundle : FinalPlanBundle)
      → IsSoundRun token_hash run
      → leb 3 (length run.versions) ≡ false
      → IsSoundRun token_hash (next_version_of backend instruction now run bundle).1
  next_version-IsSoundRun backend instruction now run bundle v room = record {
    owned = v.owned;
    shown = v.shown;
    count = suc v.count;
    numbered = new_keys _ ∙ cc (v.numbered, next_key run v);
    few = ground (arith, length-keys run.versions, ap length v.numbered, length-up_to v.count);
    summarised =
        map-append (λ (item : RunVersionSummary). item.version)
          (map not_current run.version_summaries) _
        ∙ ap (λ l. l ++ (highest (keys run.versions) + 1) ∷ [])
            (cleared_versions run.version_summaries ∙ v.summarised)
        ∙ sym (new_keys _);
    flagged =
        map-append (λ (item : RunVersionSummary). item.current)
          (map not_current run.version_summaries) _
        ∙ flags_next v.count (highest (keys run.versions) + 1) (next_key run v)
            run.version_summaries (keys run.versions) v.summarised
            (rw v.numbered (up_to_bounded v.count v.count (omega arith)))
        ∙ ap (flags_of (highest (keys run.versions) + 1)) (sym (new_keys _));
    current = Dict.get-put_self run.versions (highest (keys run.versions) + 1) _;
    answered = v.answered;
  }
    where
      new_keys :
          (V : TripRunResultResponse)
          → keys (Dict.put run.versions (highest (keys run.versions) + 1) V)
            ≡ keys run.versions ++ (highest (keys run.versions) + 1) ∷ []
      new_keys V =
          ap keys (put_new run.versions (highest (keys run.versions) + 1) V (next_free run v))
          ∙ keys-append run.versions (highest (keys run.versions) + 1) V

  pub restore_run-Keeps :
      (version now : ℕ) (run : StoredTripRun)
      → IsSoundRun token_hash run
      → Keeps (restore_run version now run)
  restore_run-Keeps version now run v = elim (Option-cases (Dict.get run.versions version)) [
    | inl missing ↦ rw missing tt
    | inr (restored, at) ↦ rw at (record {
      owned = v.owned;
      shown = v.shown;
      count = v.count;
      numbered = v.numbered;
      few = v.few;
      summarised = marked_versions version run.version_summaries ∙ v.summarised;
      flagged = marked_flags version run.version_summaries ∙ ap (flags_of version) v.summarised;
      current = at;
      answered = v.answered;
    })
  ]

  pub replan_run-Keeps :
      (backend : Backend) (request : ReplanRequest) (now : ℕ) (run : StoredTripRun)
      → IsSoundRun token_hash run
      → Keeps (replan_run backend request now run)
  replan_run-Keeps backend request now run v = elim (Bool-cases (is_cancelled run.resource.state)) [
    | inl e ↦ rw e tt
    | inr live ↦ rw live (elim (Bool-cases (leb 3 (length run.versions))) [
      | inl e ↦ rw e tt
      | inr room ↦ rw room (
          if_both Keeps (outdated request.base_version run.resource.current_version) (λ e. tt)
            λ e. elim (Option-cases (apply_instruction run.result.bundle request.instruction now)) [
              | inl failed ↦ rw failed tt
              | inr (bundle, made) ↦
                  rw made
                    (next_version-IsSoundRun backend request.instruction now run bundle v room)
            ])
    ])
  ]
