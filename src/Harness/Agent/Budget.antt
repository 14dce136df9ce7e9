-- ===== src/Harness/Agent/Budget.antt =====
-- One rule for what an agent's run does to the world: a property of the world, the generations left
-- and the handlers left, which each generation and each handler keeps as it is paid for.
use multi_agent_based_intell.Prelude.{
  ℕ, zero, suc, ◌+◌, ◌-◌, ◌≡◌, refl, true, String, string_eq, Option, none, some, List, [], ◌∷◌,
  Result, ok, err, arith, contains, length, if_both, is_empty, ltb, subst, sym,
}
use multi_agent_based_intell.Prelude.Dict
use multi_agent_based_intell.Domain.Json.{Fields}
use multi_agent_based_intell.Harness.ModelGateway.{ModelToolCall, ModelTurn, ModelRequest}
use multi_agent_based_intell.Harness.ToolGateway.{
  CallError, ToolContext, ToolDefinition, ToolExecutionResult, list_specs, execute,
}
use multi_agent_based_intell.Harness.ToolGateway.Execution.{execute-Executed, Executed_world}
use multi_agent_based_intell.Harness.Agent.{
  Stop, AgentContext, AgentSpec, AgentRunResult, GenerateError, Progress, account, announce,
  initial,
}
use multi_agent_based_intell.Harness.Agent.Loop.{
  Services, request_of, tool_context, with_result, run_calls, go_on, after_turn, take_turn, ask,
  run_steps, run_bounded, timed, run,
}

module _ {World : Type 0} (services : Services World) (spec : AgentSpec) where
  -- `tool` is one that the agent may call.
  abbrev pub MayCall : ToolDefinition World → Type 0
  MayCall tool =
      (name : String) × (contains spec.tool_allowlist name ≡ true)
      × (Dict.get services.registry name ≡ some tool)

  module _ (P : ℕ → ℕ → World → Type 0) where
    -- `P m c` holds where `m` generations and `c` handlers are left.
    pub record IsPaid : Type 0 where
      pub generation :
          (m c : ℕ) (request : ModelRequest) (w : World)
          → P (suc m) c w
          → P m c (services.generate request w).1
      pub handling :
          (m c : ℕ) (tool : ToolDefinition World) (input : Fields) (context : ToolContext)
          (w : World)
          → MayCall tool
          → P m (suc c) w
          → P m c (tool.handler input context w).1
      pub fewer_generations : (m c : ℕ) (w : World) → P (suc m) c w → P m c w
      pub fewer_handlers : (m c : ℕ) (w : World) → P m (suc c) w → P m c w

    module _ (paid : IsPaid) where
      nothing_left : (m c : ℕ) (w : World) → P m c w → P 0 0 w
      nothing_left zero zero w h = h
      nothing_left zero (suc c) w h = nothing_left zero c w (paid.fewer_handlers zero c w h)
      nothing_left (suc m) c w h = nothing_left m c w (paid.fewer_generations m c w h)

      -- What the calls of a turn leave.
      abbrev Leaves : ℕ → ℕ → Result Stop AgentContext × World → Type 0
      Leaves m c (err stop, w) = P 0 0 w
      Leaves m c (ok context, w) = P m c w

      execute_paid :
          (m c : ℕ) (call : ModelToolCall) (context : ToolContext) (w : World)
          → P m (suc c) w
          → P m c
              (execute services.elapsed_ms services.registry call.call_id call.name call.arguments
                context spec.tool_allowlist w).1
      execute_paid m c call context w h =
          Executed_world (P m c)
            (execute-Executed services.elapsed_ms services.registry call.call_id call.name
              call.arguments context spec.tool_allowlist w)
            (paid.fewer_handlers m c w h)
            (λ tool input a.
              paid.handling m c tool input context w (call.name, a.allowed, a.registered) h)

      with_result_paid :
          (next : AgentContext → World → Result Stop AgentContext × World) (m c n : ℕ)
          (context : AgentContext) (call : ModelToolCall)
          (reply : Result CallError ToolExecutionResult × World)
          → ((k : AgentContext) (v : World) → P m n v → Leaves m c (next k v))
          → P m n reply.1
          → Leaves m c (with_result services spec next context call reply)
      with_result_paid next m c n context call (err e, v) later h = nothing_left m n v h
      with_result_paid next m c n context call (ok result, v) later h = later _ v h

      run_calls_paid :
          (requested : List ModelToolCall) (m c n : ℕ)
          → n ≡ length requested + c
          → (context : AgentContext) (w : World) → P m n w
          → Leaves m c (run_calls services spec requested context w)
      unfolding run_calls
      run_calls_paid [] m c n e context w h = subst (λ k. P m k w) (omega arith) h
      run_calls_paid (call ∷ rest) m c n e context w h =
          with_result_paid (run_calls services spec rest) m c (length rest + c) context call _
            (run_calls_paid rest m c (length rest + c) refl)
            (execute_paid m (length rest + c) call (tool_context services spec context) w
              (subst (λ k. P m k w) (omega arith) h))

      -- What the rest of the loop asks for and leaves.
      abbrev Rest : ℕ → (Progress → World → Result Stop AgentRunResult × World) → Type 0
      Rest left next =
          (p : Progress) (c : ℕ) (w : World)
          → spec.model_policy.max_tool_calls ≡ p.tool_call_count + c
          → P left c w
          → P 0 0 (next p w).1

      go_on_paid :
          (next : AgentContext → World → Result Stop AgentRunResult × World) (m c : ℕ)
          (reply : Result Stop AgentContext × World)
          → ((context : AgentContext) (v : World) → P m c v → P 0 0 (next context v).1)
          → Leaves m c reply
          → P 0 0 (go_on services spec next reply).1
      go_on_paid next m c (err stop, v) later h = h
      go_on_paid next m c (ok context, v) later h = later context v h

      after_turn_paid :
          (next : Progress → World → Result Stop AgentRunResult × World) (left step : ℕ)
          (p : Progress) (turn : ModelTurn) (c : ℕ) (w : World)
          → Rest left next
          → spec.model_policy.max_tool_calls ≡ p.tool_call_count + c
          → P left c w
          → P 0 0 (after_turn services spec next step p turn w).1
      after_turn_paid next left step p turn c w later room h =
          if_both (λ (reply : Result Stop AgentRunResult × World). P 0 0 reply.1)
            (is_empty turn.tool_calls) (λ final. nothing_left left c w h)
            λ more.
              if_both (λ (reply : Result Stop AgentRunResult × World). P 0 0 reply.1)
                (ltb spec.model_policy.max_tool_calls (p.tool_call_count + length turn.tool_calls))
                (λ over. nothing_left left c w h)
                λ under.
                  go_on_paid (λ context. next (record (announce spec p turn) { current = context }))
                    left (c - length turn.tool_calls) _
                    (λ context v.
                      later (record (announce spec p turn) { current = context })
                        (c - length turn.tool_calls) v (ground arith))
                    (run_calls_paid turn.tool_calls left (c - length turn.tool_calls) c
                      (ground arith) (announce spec p turn).current w h)

      take_turn_paid :
          (next : Progress → World → Result Stop AgentRunResult × World) (left step : ℕ)
          (p : Progress) (c : ℕ) (reply : Result GenerateError ModelTurn × World)
          → Rest left next
          → spec.model_policy.max_tool_calls ≡ p.tool_call_count + c
          → P left c reply.1
          → P 0 0 (take_turn services spec next step p reply).1
      take_turn_paid next left step p c (err e, v) later room h = nothing_left left c v h
      take_turn_paid next left step p c (ok turn, v) later room h =
          after_turn_paid next left step (account p turn) turn c v later room h

      ask_paid :
          (next : Progress → World → Result Stop AgentRunResult × World) (left step : ℕ)
          (p : Progress) (c : ℕ) (w : World) (request : Option ModelRequest)
          → Rest left next
          → spec.model_policy.max_tool_calls ≡ p.tool_call_count + c
          → P (suc left) c w
          → P 0 0 (ask services spec next step p w request).1
      ask_paid next left step p c w none later room h = nothing_left (suc left) c w h
      ask_paid next left step p c w (some request) later room h =
          take_turn_paid next left step p c (services.generate request w) later room
            (paid.generation left c request w h)

      run_steps_paid : (left step : ℕ) → Rest left (run_steps services spec left step)
      unfolding run_steps
      run_steps_paid zero step p c w room h = nothing_left zero c w h
      run_steps_paid (suc left) step p c w room h =
          ask_paid (run_steps services spec left (step + 1)) left step p c w
            (request_of services spec p.current
              (list_specs services.tool_spec services.registry (some spec.tool_allowlist)))
            (run_steps_paid left (step + 1)) room h

      timed_world :
          (reply : Result Stop AgentRunResult × World) → (timed services spec reply).1 ≡ reply.1
      timed_world (err Stop.deadline, w) = refl
      timed_world (err (Stop.failed e), w) = refl
      timed_world (err Stop.request_invalid, w) = refl
      timed_world (ok result, w) = refl

      pub run_paid :
          (context : AgentContext) (w : World)
          → P spec.max_steps spec.model_policy.max_tool_calls w
          → P 0 0 (run services spec context w).1
      unfolding run run_bounded
      run_paid context w h =
          subst (P 0 0)
            (sym (timed_world (run_steps services spec spec.max_steps 1 (initial context) w)))
            (run_steps_paid spec.max_steps 1 (initial context) spec.model_policy.max_tool_calls w
              (omega arith) h)
