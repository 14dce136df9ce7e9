-- ===== src/Models/Routing/Attempts.antt =====
-- The attempts of `RoutedModelGateway.generate`: in the order of the candidates, within the bounds
-- of each and of the policy, and retried only after a failure that the policy retries.
use multi_agent_based_intell.Prelude.{
  ℕ, zero, suc, ◌+◌, ◌≤◌, ◌<◌, String, ◌≡◌, refl, sym, ◌∙◌, subst, ◌⊎◌, inl, inr, Bool, true, false,
  some, List, ltb, ◌&&◌, ◌==◌, Bool-cases, [], ◌∷◌, ◌++◌, Result, ok, err, arith, string_eq, leb,
  length, length-append, all_of, if_both,
}
use mathlib.Core.List.{append-nil, append_assoc}
use multi_agent_based_intell.Harness.ModelGateway.{ModelRequest, ModelTurn, ModelRouteAttempt}
use multi_agent_based_intell.Models.Schema.{output_conforms}
use multi_agent_based_intell.Models.Routing.{
  ProviderFailureKind, schema, kind_value, GatewayError, provider_error, other_error,
  ModelCandidate, candidate_valid, ModelRoutingPolicy, RoutingError, exhausted, uncaught,
  attempt_of, CandidateEnd, finished, next_candidate, retries, can_retry, after_failure,
  after_generate, try_candidate, go_on, try_all, generate, pause,
}

-- What is recorded of an attempt.
abbrev recorded : {World : Type 0} → ModelCandidate World → String → ModelRouteAttempt
recorded candidate outcome = record {
  provider_id = candidate.provider_id;
  model_id = candidate.model_id;
  outcome = outcome;
}

module _ {World : Type 0} (policy : ModelRoutingPolicy) (sleep : ℕ → World → World)
    (request : ModelRequest) (all : List (ModelCandidate World)) (first_world : World) where
  -- `candidate` is the one after `done`.
  abbrev pub Follows : List (ModelCandidate World) → ModelCandidate World → Type 0
  Follows done candidate = (rest : List (ModelCandidate World)) × (all ≡ done ++ (candidate ∷ rest))

  -- How an attempt in the world `w` fails: by an error of the provider of that kind, or by a turn
  -- that does not conform to the schema, which is a failure of the kind `schema`.
  pub data Fails (candidate : ModelCandidate World) (w : World)
      : ProviderFailureKind → World → Type 0 where
    by_provider :
        {kind : ProviderFailureKind} {v : World}
        → candidate.gateway request w ≡ (err (provider_error kind), v)
        → Fails candidate w kind v
    by_schema :
        {v : World} (turn : ModelTurn)
        → candidate.gateway request w ≡ (ok turn, v)
        → output_conforms turn.output request.output_schema ≡ false
        → Fails candidate w schema v

  -- The failures up to a point: `done` are the candidates given up, `local` the attempts at the next
  -- one, which may be tried again if `open_again`, then the record of all attempts, and the world in
  -- which the next attempt is made.
  pub data Log
      : List (ModelCandidate World)
        → ℕ
        → (open_again : Bool) → List ModelRouteAttempt
        → World
        → Type 0 where
    start : Log [] 0 true [] first_world
    retried :
        {done : List (ModelCandidate World)} {local : ℕ} {attempts : List ModelRouteAttempt}
        {w v : World} (candidate : ModelCandidate World) (kind : ProviderFailureKind)
        → Follows done candidate
        → Fails candidate w kind v
        → retries policy kind ≡ true
        → suc local < candidate.max_attempts
        → suc (length attempts) < policy.max_total_attempts
        → Log done local true attempts w
        → Log done
            (suc local)
            true
            (attempts ++ recorded candidate (kind_value kind) ∷ [])
            (pause policy sleep local v)
    given_up :
        {done : List (ModelCandidate World)} {local : ℕ} {attempts : List ModelRouteAttempt}
        {w v : World} (candidate : ModelCandidate World) (kind : ProviderFailureKind)
        → Follows done candidate
        → Fails candidate w kind v
        → (retries policy kind ≡ false)
          ⊎ (suc local ≡ candidate.max_attempts)
          ⊎ (suc (length attempts) ≡ policy.max_total_attempts)
        → Log done local true attempts w
        → Log done (suc local) false (attempts ++ recorded candidate (kind_value kind) ∷ []) v
    moved :
        {done : List (ModelCandidate World)} {local : ℕ} {attempts : List ModelRouteAttempt}
        {w : World} (candidate : ModelCandidate World)
        → Follows done candidate
        → Log done local false attempts w
        → Log (done ++ candidate ∷ []) 0 true attempts w

  pub data Routed (agent_id : String) (initial_tier : ℕ)
      : Result RoutingError ModelTurn → Type 0 where
    success :
        (done : List (ModelCandidate World)) (local : ℕ) (attempts : List ModelRouteAttempt)
        (candidate : ModelCandidate World) (turn : ModelTurn) (w w' : World)
        → Follows done candidate
        → local < candidate.max_attempts
        → Log done local true attempts w
        → length attempts < policy.max_total_attempts
        → candidate.gateway request w ≡ (ok turn, w')
        → output_conforms turn.output request.output_schema ≡ true
        → Routed agent_id initial_tier (
            ok (record turn {
              routing = some (record {
                selected_provider = candidate.provider_id;
                selected_model = turn.model_id;
                attempts = attempts ++ recorded candidate "success" ∷ [];
                fallback_used = ltb 0 (length done);
                escalation_used = ltb initial_tier candidate.tier;
                brain_downgraded = agent_id == "coordinator" && ltb candidate.tier initial_tier;
              });
            }))
    gave_up :
        (done : List (ModelCandidate World)) (local : ℕ) (attempts : List ModelRouteAttempt)
        (w : World)
        → Log done local true attempts w
        → length attempts ≤ policy.max_total_attempts
        → (length attempts ≡ policy.max_total_attempts) ⊎ (done ≡ all)
        → Routed agent_id initial_tier (err (exhausted attempts))
    raised :
        (done : List (ModelCandidate World)) (local : ℕ) (attempts : List ModelRouteAttempt)
        (candidate : ModelCandidate World) (w w' : World)
        → Follows done candidate
        → local < candidate.max_attempts
        → Log done local true attempts w
        → length attempts < policy.max_total_attempts
        → candidate.gateway request w ≡ (err other_error, w')
        → Routed agent_id initial_tier (err uncaught)

  module _ (agent_id : String) (initial_tier : ℕ) (done : List (ModelCandidate World))
      (candidate : ModelCandidate World) (follows : Follows done candidate)
      (valid : 0 < candidate.max_attempts) where
    -- Where the attempts at one candidate leave off.
    record IsOver (total : ℕ) (attempts : List ModelRouteAttempt) (w : World) : Type 0 where
      local : ℕ
      log : Log done local false attempts w
      counted : total ≡ length attempts
      within : total ≤ policy.max_total_attempts

    abbrev Tried : CandidateEnd × World → Type 0
    Tried (finished result, w) = Routed agent_id initial_tier result
    Tried (next_candidate total attempts, w) = IsOver total attempts w

    -- The rest of the candidate's loop.
    abbrev Again : ℕ → (ℕ → List ModelRouteAttempt → World → CandidateEnd × World) → Type 0
    Again local again =
        (total : ℕ) (attempts : List ModelRouteAttempt) (w : World)
        → Log done local true attempts w
        → local < candidate.max_attempts
        → total ≡ length attempts
        → total ≤ policy.max_total_attempts
        → Tried (again total attempts w)

    no_more :
        (local total : ℕ) (kind : ProviderFailureKind)
        → can_retry policy candidate local (total + 1) kind ≡ false
        → local < candidate.max_attempts
        → total < policy.max_total_attempts
        → (retries policy kind ≡ false)
          ⊎ (suc local ≡ candidate.max_attempts)
          ⊎ (suc total ≡ policy.max_total_attempts)
    no_more local total kind h room under = elim (Bool-cases (retries policy kind)) [
      | inr never ↦ inl never
      | inl may ↦ inr (elim (Bool-cases (ltb (local + 1) candidate.max_attempts)) [
        | inr last ↦ inl (ground arith)
        | inl more ↦ inr (ground (arith, may, more, h))
      ])
    ]

    after_failure-Tried :
        (again : ℕ → List ModelRouteAttempt → World → CandidateEnd × World) (local total : ℕ)
        (attempts : List ModelRouteAttempt) (kind : ProviderFailureKind) (w v : World)
        → Fails candidate w kind v
        → Again (suc local) again
        → local < candidate.max_attempts
        → Log done local true attempts w
        → total ≡ length attempts
        → total < policy.max_total_attempts
        → Tried (
            after_failure agent_id policy sleep request initial_tier again candidate local
              (total + 1)
              attempts
              kind
              v)
    after_failure-Tried again local total attempts kind w v failure later room log counted under =
        if_both Tried (can_retry policy candidate local (total + 1) kind)
          (λ more.
            later (total + 1) (attempts ++ attempt_of candidate (kind_value kind) ∷ [])
              (pause policy sleep local v)
              (retried candidate kind follows failure (ground (arith, more)) (ground (arith, more))
                (ground (arith, more, counted)) log)
              (ground (arith, more)) (omega (arith, counted, grown)) (omega arith))
          λ over. record {
            local = suc local;
            log =
                given_up candidate kind follows failure
                  (subst
                    (λ n.
                      (retries policy kind ≡ false)
                      ⊎ (suc local ≡ candidate.max_attempts)
                      ⊎ (suc n ≡ policy.max_total_attempts))
                    counted (no_more local total kind over room under))
                  log;
            counted = omega (arith, counted, grown);
            within = omega arith;
          }
      where
        grown :
            length (attempts ++ attempt_of candidate (kind_value kind) ∷ []) ≡ length attempts + 1
        grown = length-append attempts (attempt_of candidate (kind_value kind) ∷ [])

    after_generate-Tried :
        (again : ℕ → List ModelRouteAttempt → World → CandidateEnd × World) (local total : ℕ)
        (attempts : List ModelRouteAttempt) (w : World)
        (reply : Result GatewayError ModelTurn × World)
        → candidate.gateway request w ≡ reply
        → Again (suc local) again
        → local < candidate.max_attempts
        → Log done local true attempts w
        → total ≡ length attempts
        → total < policy.max_total_attempts
        → Tried (
            after_generate agent_id policy sleep request initial_tier again
              (length done)
              candidate
              local
              (total + 1)
              attempts
              reply)
    after_generate-Tried again local total attempts w (err other_error, v) made later room log
          counted under =
        raised done local attempts candidate w v follows room log (omega (arith, counted)) made
    after_generate-Tried again local total attempts w (err (provider_error kind), v) made later room
          log counted under =
        after_failure-Tried again local total attempts kind w v (by_provider made) later room log
          counted under
    after_generate-Tried again local total attempts w (ok turn, v) made later room log counted
          under =
        if_both Tried (output_conforms turn.output request.output_schema)
          (λ conforms.
            success done local attempts candidate turn w v follows room log (omega (arith, counted))
              made conforms)
          λ other.
            after_failure-Tried again local total attempts schema w v (by_schema turn made other)
              later room log counted under

    try_candidate-Tried :
        (left local : ℕ)
        → left + local ≡ candidate.max_attempts
        → Again local (
            try_candidate agent_id policy sleep request initial_tier left
              (length done)
              candidate
              local)
    unfolding try_candidate
    try_candidate-Tried zero local room total attempts w log more counted within =
        absurd (omega arith)
    try_candidate-Tried (suc left) local room total attempts w log more counted within =
        if_both Tried (leb policy.max_total_attempts total)
          (λ spent.
            gave_up done local attempts w log (omega (arith, counted))
              (inl (ground (arith, counted))))
          λ free.
            after_generate-Tried _ local total attempts w _ refl
              (subst
                (λ n. Again n (
                  try_candidate agent_id policy sleep request initial_tier left (length done)
                    candidate (local + 1)))
                (omega arith) (try_candidate-Tried left (local + 1) (omega arith)))
              more log counted (ground arith)

  module _ (agent_id : String) (initial_tier : ℕ) where
    go_on-Routed :
        (done : List (ModelCandidate World)) (candidate : ModelCandidate World)
        (follows : Follows done candidate) (valid : 0 < candidate.max_attempts)
        (next : ℕ → List ModelRouteAttempt → World → Result RoutingError ModelTurn × World)
        (end : CandidateEnd × World)
        → ((total : ℕ) (attempts : List ModelRouteAttempt) (w : World)
            → Log (done ++ candidate ∷ []) 0 true attempts w
            → total ≡ length attempts
            → total ≤ policy.max_total_attempts
            → Routed agent_id initial_tier (next total attempts w).0)
        → Tried agent_id initial_tier done candidate follows valid end
        → Routed agent_id initial_tier (go_on agent_id policy sleep request initial_tier next end).0
    go_on-Routed done candidate follows valid next (finished result, w) later tried = tried
    go_on-Routed done candidate follows valid next (next_candidate total attempts, w) later over =
        later total attempts w (moved candidate follows over.log) over.counted over.within

    try_all-Routed :
        (done rest : List (ModelCandidate World)) (index total : ℕ)
        (attempts : List ModelRouteAttempt) (w : World)
        → all ≡ done ++ rest
        → index ≡ length done
        → all_of candidate_valid rest ≡ true
        → Log done 0 true attempts w
        → total ≡ length attempts
        → total ≤ policy.max_total_attempts
        → Routed agent_id initial_tier
            (try_all agent_id policy sleep request initial_tier rest index total attempts w).0
    unfolding try_all
    try_all-Routed done [] index total attempts w split numbered valid log counted within =
        gave_up done 0 attempts w log (omega (arith, counted)) (inr (sym (split ∙ append-nil done)))
    try_all-Routed done (candidate ∷ rest) index total attempts w split numbered valid log counted
          within =
        go_on-Routed done candidate (rest, split) (ground arith)
          (try_all agent_id policy sleep request initial_tier rest (index + 1)) _
          (λ t made v l c h.
            try_all-Routed (done ++ candidate ∷ []) rest (index + 1) t made v
              (split ∙ sym (append_assoc done (candidate ∷ []) rest))
              (omega (arith, length-append done (candidate ∷ []))) (ground arith) l c h)
          (subst
            (λ n.
              Tried agent_id initial_tier done candidate (rest, split) (ground arith)
                (try_candidate agent_id policy sleep request initial_tier candidate.max_attempts n
                  candidate 0 total attempts w))
            (sym numbered)
            (try_candidate-Tried agent_id initial_tier done candidate (rest, split) (ground arith)
              candidate.max_attempts 0 (omega arith) total attempts w log (ground arith) counted
              within))

-- `generate` tries the candidates in their order. Each attempt is made in the world that the one
-- before it left, after the pause. A provider's error is a failure of its kind, and a turn whose
-- output does not conform to the request's schema one of the kind `schema`. A candidate is tried
-- again exactly where the policy retries the kind and both it and the policy have an attempt left,
-- and else the next one follows. The first turn that conforms is given, with the recorded failures
-- and the success as its routing. It gives up only when the attempts are spent or the candidates
-- are, and any other exception is that of the candidate whose turn it is.
pub generate-Routed :
    {World : Type 0} (agent_id : String) (candidate : ModelCandidate World)
    (rest : List (ModelCandidate World)) (policy : ModelRoutingPolicy) (sleep : ℕ → World → World)
    (request : ModelRequest) (w : World)
    → all_of candidate_valid (candidate ∷ rest) ≡ true
    → Routed policy sleep request
        (candidate ∷ rest)
        w
        agent_id
        candidate.tier
        (generate agent_id candidate rest policy sleep request w).0
unfolding generate
generate-Routed agent_id candidate rest policy sleep request w valid =
    try_all-Routed policy sleep request (candidate ∷ rest) w agent_id candidate.tier []
      (candidate ∷ rest) 0 0 [] w refl refl valid start refl (omega arith)
