-- ===== src/Models/Routing.antt =====
-- packages/models/routing.py: bounded attempts at the configured model candidates. `World` is what
-- the candidates' gateways and the sleeper change; a delay is in milliseconds.
pub mod Attempts
mod Tests
use multi_agent_based_intell.Prelude.{
  ℕ, zero, suc, ◌+◌, ◌*◌, String, Bool, ◌&&◌, some, List, [], ◌∷◌, ◌++◌, map, Result, ok, err, ltb,
  leb, nat_beq, ◌==◌, string_eq, contains, if◌then◌else◌,
}
use multi_agent_based_intell.Harness.ModelGateway.{ModelRequest, ModelTurn, ModelRouteAttempt}
use multi_agent_based_intell.Models.Schema.{output_conforms}

pub data ProviderFailureKind : Type 0 where
  rate_limit timeout quota auth schema server transport : ProviderFailureKind

-- The value of the enumeration.
abbrev pub kind_value : ProviderFailureKind → String
kind_value rate_limit = "rate_limit"
kind_value timeout = "timeout"
kind_value quota = "quota"
kind_value auth = "auth"
kind_value schema = "schema"
kind_value server = "server"
kind_value transport = "transport"

-- What a candidate's gateway raises: a `ModelProviderError`, or any other exception.
pub data GatewayError : Type 0 where
  provider_error : ProviderFailureKind → GatewayError
  other_error : GatewayError

pub record ModelCandidate (World : Type 0) : Type 0 where
  pub provider_id : String
  pub model_id : String
  pub tier : ℕ
  pub gateway : ModelRequest → World → Result GatewayError ModelTurn × World
  pub max_attempts : ℕ

-- `ModelCandidate.__post_init__`
abbrev pub candidate_valid : {World : Type 0} → ModelCandidate World → Bool
candidate_valid candidate = leb 1 candidate.max_attempts && leb candidate.max_attempts 3

pub record ModelRoutingPolicy : Type 0 where
  pub max_total_attempts : ℕ
  pub retry_base_ms : ℕ
  pub retry_max_ms : ℕ
  pub retryable_failures : List ProviderFailureKind

pub data RoutingError : Type 0 where
  exhausted : List ModelRouteAttempt → RoutingError
  uncaught : RoutingError

abbrev pub power_of_two : ℕ → ℕ
power_of_two zero = 1
power_of_two (suc n) = 2 * power_of_two n

abbrev pub attempt_of : {World : Type 0} → ModelCandidate World → String → ModelRouteAttempt
attempt_of candidate outcome = record {
  provider_id = candidate.provider_id;
  model_id = candidate.model_id;
  outcome = outcome;
}

-- How the attempts at one candidate end: by a result, or by going on to the next candidate.
pub data CandidateEnd : Type 0 where
  finished : Result RoutingError ModelTurn → CandidateEnd
  next_candidate : (total : ℕ) → List ModelRouteAttempt → CandidateEnd

-- The turn of a success, with its routing.
abbrev pub routed :
    {World : Type 0}
    → String
    → (initial_tier index : ℕ) → ModelCandidate World
    → List ModelRouteAttempt
    → ModelTurn
    → ModelTurn
routed agent_id initial_tier index candidate attempts turn = record turn {
  routing = some (record {
    selected_provider = candidate.provider_id;
    selected_model = turn.model_id;
    attempts = attempts ++ attempt_of candidate "success" ∷ [];
    fallback_used = ltb 0 index;
    escalation_used = ltb initial_tier candidate.tier;
    brain_downgraded = agent_id == "coordinator" && ltb candidate.tier initial_tier;
  });
}

-- `kind in self.policy.retryable_failures`
abbrev pub retries : ModelRoutingPolicy → ProviderFailureKind → Bool
retries policy kind = contains (map kind_value policy.retryable_failures) (kind_value kind)

abbrev pub can_retry :
    {World : Type 0}
    → ModelRoutingPolicy
    → ModelCandidate World
    → (local total : ℕ) → ProviderFailureKind
    → Bool
can_retry policy candidate local total kind =
    retries policy kind
    && ltb (local + 1) candidate.max_attempts
    && ltb total policy.max_total_attempts

abbrev pub pause : {World : Type 0} → ModelRoutingPolicy → (ℕ → World → World) → ℕ → World → World
pause policy sleep local w =
    let delay = policy.retry_base_ms * power_of_two local in
    let bounded = if leb policy.retry_max_ms delay then policy.retry_max_ms else delay in
    if nat_beq bounded 0 then w else sleep bounded w

module _ {World : Type 0} (agent_id : String) (policy : ModelRoutingPolicy)
    (sleep : ℕ → World → World) (request : ModelRequest) (initial_tier : ℕ) where
  -- After a `ModelProviderError`; `again` is the rest of the candidate's loop.
  abbrev pub after_failure :
      (ℕ → List ModelRouteAttempt → World → CandidateEnd × World)
      → ModelCandidate World
      → (local total : ℕ) → List ModelRouteAttempt
      → ProviderFailureKind
      → World
      → CandidateEnd × World
  after_failure again candidate local total attempts kind w =
      if can_retry policy candidate local total kind
      then again total (attempts ++ attempt_of candidate (kind_value kind) ∷ [])
          (pause policy sleep local w)
      else (next_candidate total (attempts ++ attempt_of candidate (kind_value kind) ∷ []), w)

  abbrev pub after_generate :
      (ℕ → List ModelRouteAttempt → World → CandidateEnd × World)
      → ℕ
      → ModelCandidate World
      → (local total : ℕ) → List ModelRouteAttempt
      → Result GatewayError ModelTurn × World
      → CandidateEnd × World
  after_generate again index candidate local total attempts (err other_error, w) =
      (finished (err uncaught), w)
  after_generate again index candidate local total attempts (err (provider_error kind), w) =
      after_failure again candidate local total attempts kind w
  after_generate again index candidate local total attempts (ok turn, w) =
      if output_conforms turn.output request.output_schema
      then (finished (ok (routed agent_id initial_tier index candidate attempts turn)), w)
      else after_failure again candidate local total attempts schema w

  -- The loop over `range(candidate.max_attempts)`, by the attempts left.
  unfoldable pub try_candidate :
      ℕ
      → ℕ
      → ModelCandidate World
      → (local total : ℕ) → List ModelRouteAttempt
      → World
      → CandidateEnd × World
  try_candidate zero index candidate local total attempts w = (next_candidate total attempts, w)
  try_candidate (suc left) index candidate local total attempts w =
      if leb policy.max_total_attempts total
      then (finished (err (exhausted attempts)), w)
      else after_generate (try_candidate left index candidate (local + 1)) index candidate local
          (total + 1) attempts (candidate.gateway request w)

  abbrev pub go_on :
      (ℕ → List ModelRouteAttempt → World → Result RoutingError ModelTurn × World)
      → CandidateEnd × World
      → Result RoutingError ModelTurn × World
  go_on next (finished result, w) = (result, w)
  go_on next (next_candidate total attempts, w) = next total attempts w

  -- The loop over `enumerate(self.candidates)`.
  unfoldable pub try_all :
      List (ModelCandidate World)
      → (index total : ℕ) → List ModelRouteAttempt
      → World
      → Result RoutingError ModelTurn × World
  unfolding try_candidate
  try_all [] index total attempts w = (err (exhausted attempts), w)
  try_all (candidate ∷ rest) index total attempts w =
      go_on (try_all rest (index + 1))
        (try_candidate candidate.max_attempts index candidate 0 total attempts w)

-- `generate`, for the configured candidates, of which `__init__` asks that there is one.
unfoldable pub generate :
    {World : Type 0}
    → String
    → ModelCandidate World
    → List (ModelCandidate World)
    → ModelRoutingPolicy
    → (ℕ → World → World)
    → ModelRequest
    → World
    → Result RoutingError ModelTurn × World
unfolding try_all
generate agent_id candidate rest policy sleep request w =
    try_all agent_id policy sleep request candidate.tier (candidate ∷ rest) 0 0 [] w
