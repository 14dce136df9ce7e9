-- ===== src/Harness/Agent/Course.antt =====
-- How a run comes to its result: turns with tool calls and then one with a valid output, all of
-- them in the accounts.
use multi_agent_based_intell.Prelude.{
  ℕ, zero, suc, ◌+◌, String, ◌≡◌, refl, ap, sym, ◌∙◌, inl, inr, Bool, true, false, ◌&&◌, ◌||◌,
  Option, none, some, List, [], ◌∷◌, ◌++◌, Result, ok, err, arith, string_eq, contains, length,
  any_of, is_empty, ltb, Bool-cases, Option-cases, subst, eq_iff, contains-mem, mem-contains,
  contains-append,
}
use multi_agent_based_intell.Prelude.Sorting.{
  sort_by, IsSorted, sort_by-IsSorted, mem-sort_by, mem-of-sort_by,
}
use multi_agent_based_intell.Prelude.Strings.{str_le, str_le_total, str_le_trans}
use multi_agent_based_intell.Domain.Json.{Fields}
use multi_agent_based_intell.Harness.ModelGateway.{
  ModelUsage, no_usage, add_usage, ModelTurn, ModelRequest,
}
use multi_agent_based_intell.Harness.ToolGateway.{list_specs}
use multi_agent_based_intell.Harness.Agent.{
  Stop, AgentContext, AgentSpec, AgentRunResult, GenerateError, Progress, account, announce,
  initial, add_scopes,
}
use multi_agent_based_intell.Harness.Agent.Loop.{
  Services, request_of, accepted, answer, run_calls, go_on, after_turn, take_turn, ask, run_steps,
  run_bounded, timed, run,
}

abbrev pub total_usage : List ModelTurn → ModelUsage
total_usage [] = no_usage
total_usage (turn ∷ turns) = add_usage turn.usage (total_usage turns)

abbrev pub total_calls : List ModelTurn → ℕ
total_calls [] = 0
total_calls (turn ∷ turns) = length turn.tool_calls + total_calls turns

-- The turn is over a budget of this scope.
abbrev pub exceeds_scope : String → ModelTurn → Bool
exceeds_scope scope turn = turn.budget_partial && contains turn.budget_exceeded_scopes scope

contains-add_scopes :
    (scopes new : List String) (s : String)
    → contains (add_scopes scopes new) s ≡ (contains scopes s || contains new s)
contains-add_scopes scopes [] s = ground arith
contains-add_scopes scopes (scope ∷ rest) s = elim (Bool-cases (contains scopes scope)) [
  | inl old ↦ rw old (ground (arith, contains-add_scopes scopes rest s, eq_iff scope s, old))
  | inr new ↦ rw new (
      ground (
        arith,
        contains-add_scopes (scopes ++ scope ∷ []) rest s,
        contains-append scopes (scope ∷ []) s,
      ))
]

contains-sort_by : (xs : List String) (s : String) → contains (sort_by str_le xs) s ≡ contains xs s
contains-sort_by xs s = elim (Bool-cases (contains xs s)) [
  | inl inside ↦ rw inside (mem-contains _ (mem-sort_by str_le xs (contains-mem xs s inside)))
  | inr outside ↦ rw outside (elim (Bool-cases (contains (sort_by str_le xs) s)) [
    | inl sorted ↦
        absurd (cc (outside, mem-contains xs (mem-of-sort_by str_le xs (contains-mem _ s sorted))))
    | inr none_there ↦ none_there
  ])
]

-- The result's accounts, from a progress on and over the turns that follow it.
pub record Accounted (p : Progress) (step : ℕ) (turns : List ModelTurn) (result : AgentRunResult)
    : Type 0 where
  pub usage : result.usage ≡ add_usage p.usage (total_usage turns)
  pub tool_calls : result.tool_calls ≡ p.tool_call_count + total_calls turns
  pub partial : result.partial ≡ (p.partial || any_of (λ (t : ModelTurn). t.budget_partial) turns)
  pub steps : result.steps + 1 ≡ step + length turns
  pub scopes :
      (s : String)
      → contains result.budget_exceeded_scopes s
        ≡ (contains p.exceeded_scopes s || any_of (exceeds_scope s) turns)
  pub sorted : IsSorted str_le result.budget_exceeded_scopes

contains-account :
    (p : Progress) (turn : ModelTurn) (s : String)
    → contains (account p turn).exceeded_scopes s
      ≡ (contains p.exceeded_scopes s || exceeds_scope s turn)
contains-account p turn s = elim (Bool-cases turn.budget_partial) [
  | inl over ↦ rw over (contains-add_scopes p.exceeded_scopes turn.budget_exceeded_scopes s)
  | inr under ↦ rw under (ground arith)
]

add_usage_assoc : (a b c : ModelUsage) → add_usage (add_usage a b) c ≡ add_usage a (add_usage b c)
add_usage_assoc a b c = ground arith

add_usage-no_usage : (a : ModelUsage) → a ≡ add_usage a no_usage
add_usage-no_usage a = ground arith

module _ {World : Type 0} (services : Services World) (spec : AgentSpec) where
  -- The request that the loop makes from a context.
  abbrev pub Asks : AgentContext → ModelRequest → Type 0
  Asks context request =
      request_of services spec context
        (list_specs services.tool_spec services.registry (some spec.tool_allowlist))
      ≡ some request

  -- The turns from a context and a world to an output.
  pub data Course : AgentContext → World → List ModelTurn → Fields → World → Type 0 where
    final :
        {context : AgentContext} {w w' : World} (request : ModelRequest) (turn : ModelTurn)
        (raw output : Fields)
        → Asks context request
        → services.generate request w ≡ (ok turn, w')
        → is_empty turn.tool_calls ≡ true
        → turn.output ≡ some raw
        → spec.output_model.model_validate raw ≡ some output
        → Course context w (turn ∷ []) output w'
    round :
        {context next : AgentContext} {w v v' w' : World} {turns : List ModelTurn} {output : Fields}
        (request : ModelRequest) (turn : ModelTurn)
        → Asks context request
        → services.generate request w ≡ (ok turn, v)
        → is_empty turn.tool_calls ≡ false
        → run_calls services spec turn.tool_calls (announce spec (initial context) turn).current v
          ≡ (ok next, v')
        → Course next v' turns output w'
        → Course context w (turn ∷ turns) output w'

  abbrev pub Ends : Progress → ℕ → World → AgentRunResult → World → Type 0
  Ends p step w result w' =
      (turns : List ModelTurn) × Course p.current w turns result.output w'
      × Accounted p step turns result

  -- A result that reports a progress.
  record Reports (step : ℕ) (p : Progress) (result : AgentRunResult) : Type 0 where
    usage : result.usage ≡ p.usage
    tool_calls : result.tool_calls ≡ p.tool_call_count
    partial : result.partial ≡ p.partial
    steps : result.steps ≡ step
    scopes : result.budget_exceeded_scopes ≡ sort_by str_le p.exceeded_scopes

  answer-Reports :
      (step : ℕ) (p : Progress) (output : Option Fields) {result : AgentRunResult}
      → answer services spec step p output ≡ ok result
      → (raw : Fields) × (output ≡ some raw)
        × (spec.output_model.model_validate raw ≡ some result.output)
        × Reports step p result
  answer-Reports step p none h = absurd (cc)
  answer-Reports step p (some raw) h = elim (Option-cases (spec.output_model.model_validate raw)) [
    | inl bad ↦ absurd (cc (rw bad at h))
    | inr (output, good) ↦
        let h' : accepted services spec step p (some output) ≡ ok _ = rw good at h in
        (
          raw,
          refl,
          ground arith,
          record {
            usage = ground arith;
            tool_calls = ground arith;
            partial = ground arith;
            steps = ground arith;
            scopes = ground arith;
          },
        )
  ]

  no_calls {ℓ} : {A : Type ℓ} (xs : List A) → is_empty xs ≡ true → length xs ≡ 0
  no_calls [] h = refl
  no_calls (x ∷ xs) h = absurd (cc)

  Reports-Accounted :
      (step : ℕ) (p : Progress) (turn : ModelTurn) {result : AgentRunResult}
      → is_empty turn.tool_calls ≡ true
      → Reports step (account p turn) result
      → Accounted p step (turn ∷ []) result
  Reports-Accounted step p turn empty r = record {
    usage = r.usage ∙ ap (add_usage p.usage) (add_usage-no_usage turn.usage);
    tool_calls = omega (arith, r.tool_calls, no_calls turn.tool_calls empty);
    partial = ground arith;
    steps = omega (arith, r.steps);
    scopes = λ s. rw r.scopes (
        ground
          (arith, contains-sort_by (account p turn).exceeded_scopes s, contains-account p turn s));
    sorted =
        subst (IsSorted str_le) (sym r.scopes)
          (sort_by-IsSorted str_le str_le_total str_le_trans _);
  }

  -- The accounts of a turn with tool calls and of the turns after it.
  round-Accounted :
      (step : ℕ) (p : Progress) (turn : ModelTurn) (next : AgentContext) (turns : List ModelTurn)
      {result : AgentRunResult}
      → Accounted
          (record (announce spec (account p turn) turn) { current = next })
          (step + 1)
          turns
          result
      → Accounted p step (turn ∷ turns) result
  round-Accounted step p turn next turns a = record {
    usage = a.usage ∙ add_usage_assoc p.usage turn.usage (total_usage turns);
    tool_calls = omega (arith, a.tool_calls);
    partial = ground (arith, a.partial);
    steps = omega (arith, a.steps);
    scopes = λ s. ground (arith, a.scopes s, contains-account p turn s);
    sorted = a.sorted;
  }

  module _ (result : AgentRunResult) (w' : World) where
    -- What a loop that ends well from any progress has done.
    abbrev Finishes : ℕ → (Progress → World → Result Stop AgentRunResult × World) → Type 0
    Finishes step next =
        (p : Progress) (w : World) → next p w ≡ (ok result, w') → Ends p step w result w'

    final-Ends :
        (p : Progress) (step : ℕ) (w v : World) (request : ModelRequest) (turn : ModelTurn)
        → Asks p.current request
        → services.generate request w ≡ (ok turn, v)
        → is_empty turn.tool_calls ≡ true
        → ◌≡◌ {A = Result Stop AgentRunResult × World}
            (answer services spec step (account p turn) turn.output, v)
            (ok result, w')
        → Ends p step w result w'
    final-Ends p step w v request turn asks made empty h =
        let (raw, given, good, r) =
          answer-Reports step (account p turn) turn.output
            (ap (λ (q : Result Stop AgentRunResult × World). q.0) h) in
        (
          turn ∷ [],
          final request turn raw result.output asks
              (subst (λ u. services.generate request w ≡ (ok turn, u))
                (ap (λ (q : Result Stop AgentRunResult × World). q.1) h) made)
              empty given good,
          Reports-Accounted step p turn empty r,
        )

    with_calls-Ends :
        (next : Progress → World → Result Stop AgentRunResult × World) (p : Progress) (step : ℕ)
        (w v : World) (request : ModelRequest) (turn : ModelTurn)
        (reply : Result Stop AgentContext × World)
        → Finishes (step + 1) next
        → Asks p.current request
        → services.generate request w ≡ (ok turn, v)
        → is_empty turn.tool_calls ≡ false
        → run_calls services spec turn.tool_calls (announce spec p turn).current v ≡ reply
        → go_on services spec
            (λ context. next (record (announce spec (account p turn) turn) { current = context }))
            reply
          ≡ (ok result, w')
        → Ends p step w result w'
    with_calls-Ends next p step w v request turn (err stop, u) later asks made some_calls ran h =
        absurd (cc)
    with_calls-Ends next p step w v request turn (ok context, u) later asks made some_calls ran h =
        let (turns, course, a) = later _ u h in
        (
          turn ∷ turns,
          round request turn asks made some_calls ran course,
          round-Accounted step p turn context turns a,
        )

    after_turn-Ends :
        (next : Progress → World → Result Stop AgentRunResult × World) (p : Progress) (step : ℕ)
        (w v : World) (request : ModelRequest) (turn : ModelTurn)
        → Finishes (step + 1) next
        → Asks p.current request
        → services.generate request w ≡ (ok turn, v)
        → after_turn services spec next step (account p turn) turn v ≡ (ok result, w')
        → Ends p step w result w'
    after_turn-Ends next p step w v request turn later asks made h =
        elim (Bool-cases (is_empty turn.tool_calls)) [
          | inl empty ↦ final-Ends p step w v request turn asks made empty (rw empty at h)
          | inr more ↦
              elim (Bool-cases (
                ltb spec.model_policy.max_tool_calls
                  (p.tool_call_count + length turn.tool_calls))) [
                    | inl over ↦ absurd (cc (rw over at (rw more at h)))
                    | inr under ↦
                        with_calls-Ends next p step w v request turn _ later asks made more refl
                          (rw under at (rw more at h))
                  ]
        ]

    take_turn-Ends :
        (next : Progress → World → Result Stop AgentRunResult × World) (p : Progress) (step : ℕ)
        (w : World) (request : ModelRequest) (reply : Result GenerateError ModelTurn × World)
        → Finishes (step + 1) next
        → Asks p.current request
        → services.generate request w ≡ reply
        → take_turn services spec next step p reply ≡ (ok result, w')
        → Ends p step w result w'
    take_turn-Ends next p step w request (err e, v) later asks made h = absurd (cc)
    take_turn-Ends next p step w request (ok turn, v) later asks made h =
        after_turn-Ends next p step w v request turn later asks made h

    ask-Ends :
        (next : Progress → World → Result Stop AgentRunResult × World) (p : Progress) (step : ℕ)
        (w : World) (request : Option ModelRequest)
        → Finishes (step + 1) next
        → request_of services spec p.current
            (list_specs services.tool_spec services.registry (some spec.tool_allowlist))
          ≡ request
        → ask services spec next step p w request ≡ (ok result, w')
        → Ends p step w result w'
    ask-Ends next p step w none later asks h = absurd (cc)
    ask-Ends next p step w (some request) later asks h =
        take_turn-Ends next p step w request _ later asks refl h

    run_steps-Finishes : (left step : ℕ) → Finishes step (run_steps services spec left step)
    unfolding run_steps
    run_steps-Finishes zero step p w h = absurd (cc)
    run_steps-Finishes (suc left) step p w h =
        ask-Ends (run_steps services spec left (step + 1)) p step w _
          (run_steps-Finishes left (step + 1)) refl h

    untimed :
        (reply : Result Stop AgentRunResult × World)
        → timed services spec reply ≡ (ok result, w')
        → reply ≡ (ok result, w')
    untimed (err Stop.deadline, w) h = absurd (cc)
    untimed (err (Stop.failed e), w) h = absurd (cc)
    untimed (err Stop.request_invalid, w) h = absurd (cc)
    untimed (ok r, w) h = h

    -- A run that ends well has had turns with tool calls, all of which were answered, and then one
    -- without, whose output the agent's model accepts and which is the result's. The result's usage
    -- is the sum of the turns' usages, its steps and tool calls are theirs in number, it is partial
    -- exactly when a turn is, and its scopes are sorted and are those that the partial turns name.
    pub run-Course :
        (context : AgentContext) (w : World)
        → run services spec context w ≡ (ok result, w')
        → (turns : List ModelTurn) × Course context w turns result.output w'
          × Accounted (initial context) 1 turns result
    unfolding run run_bounded
    run-Course context w h = run_steps-Finishes spec.max_steps 1 (initial context) w (untimed _ h)
