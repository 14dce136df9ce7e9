-- ===== src/Harness/Agent/Loop.antt =====
-- `BaseAgent.run` and `_run_bounded` of packages/harness/agent.py.
use multi_agent_based_intell.Prelude.{
  ℕ, zero, suc, ◌+◌, String, true, false, Option, none, some, List, [], ◌∷◌, Result, ok, err, ltb,
  length, is_empty, if◌then◌else◌,
}
use multi_agent_based_intell.Prelude.Sorting.{sort_by}
use multi_agent_based_intell.Prelude.Strings.{str_le}
use multi_agent_based_intell.Domain.Json.{Fields}
use multi_agent_based_intell.Harness.ModelGateway.{
  MessageRole, system, ModelToolSpec, ModelToolCall, ModelTurn, ModelRequest, request_valid,
}
use multi_agent_based_intell.Harness.ToolGateway.{
  CallError, ToolContext, ToolExecutionResult, ToolRegistry, SpecCheck, list_specs, execute,
}
use multi_agent_based_intell.Harness.Agent.{
  model_error, output_validation_error, max_steps_exceeded, tool_call_limit_exceeded, timed_out,
  failure, Stop, failed, deadline, request_invalid, AgentContext, append, AgentSpec, AgentRunResult,
  GenerateError, classified, provider_failed, deadline_passed, Progress, account, announce, stop_of,
  initial,
}

-- What the loop calls.
pub record Services (World : Type 0) : Type 0 where
  pub generate : ModelRequest → World → Result GenerateError ModelTurn × World
  pub registry : ToolRegistry World
  pub tool_spec : SpecCheck
  pub elapsed_ms : World → World → ℕ
  pub dumps : Fields → String

module _ {World : Type 0} (services : Services World) (spec : AgentSpec) where
  abbrev pub checked_request : ModelRequest → Option ModelRequest
  checked_request request = if request_valid request then some request else none

  -- The request of a step: `none` where pydantic refuses it.
  abbrev pub request_of : AgentContext → Option (List ModelToolSpec) → Option ModelRequest
  request_of context none = none
  request_of context (some tools) = checked_request (record {
    messages =
        record {
          role = system;
          content = spec.system_prompt;
          name = some spec.agent_id;
          tool_call_id = none;
        }
        ∷ context.messages;
    tools = tools;
    output_schema = some spec.output_model.json_schema;
    policy = spec.model_policy;
    trace = record {
      trace_id = context.trace_id;
      run_id = context.run_id;
      task_id = context.task_id;
    };
  })

  abbrev pub stop_of_generate : GenerateError → Stop
  stop_of_generate (classified e) = failed e
  stop_of_generate provider_failed = failed (failure model_error true)
  stop_of_generate deadline_passed = deadline

  abbrev pub accepted : ℕ → Progress → Option Fields → Result Stop AgentRunResult
  accepted step p none = err (failed (failure output_validation_error false))
  accepted step p (some output) = ok (record {
    output = output;
    usage = p.usage;
    steps = step;
    tool_calls = p.tool_call_count;
    partial = p.partial;
    budget_exceeded_scopes = sort_by str_le p.exceeded_scopes;
  })

  -- The end of a turn without tool calls.
  abbrev pub answer : ℕ → Progress → Option Fields → Result Stop AgentRunResult
  answer step p none = err (failed (failure output_validation_error true))
  answer step p (some output) = accepted step p (spec.output_model.model_validate output)

  abbrev pub tool_context : AgentContext → ToolContext
  tool_context context = record {
    run_id = context.run_id;
    task_id = context.task_id;
    agent_id = spec.agent_id;
    trace_id = context.trace_id;
  }

  abbrev pub with_result :
      (AgentContext → World → Result Stop AgentContext × World)
      → AgentContext
      → ModelToolCall
      → Result CallError ToolExecutionResult × World
      → Result Stop AgentContext × World
  with_result next context call (err e, w) = (err (stop_of e), w)
  with_result next context call (ok result, w) =
      next
        (append context (record {
          role = MessageRole.tool;
          content = services.dumps result.output;
          name = some spec.agent_id;
          tool_call_id = some call.call_id;
        }))
        w

  -- The calls of one turn, in order.
  unfoldable pub run_calls :
      List ModelToolCall → AgentContext → World → Result Stop AgentContext × World
  run_calls [] context w = (ok context, w)
  run_calls (call ∷ rest) context w = with_result (run_calls rest) context call (
      execute services.elapsed_ms services.registry call.call_id call.name call.arguments
        (tool_context context) spec.tool_allowlist w)

  abbrev pub go_on :
      (AgentContext → World → Result Stop AgentRunResult × World)
      → Result Stop AgentContext × World
      → Result Stop AgentRunResult × World
  go_on next (err stop, w) = (err stop, w)
  go_on next (ok context, w) = next context w

  -- The rest of a step, once its turn is accounted for.
  abbrev pub after_turn :
      (Progress → World → Result Stop AgentRunResult × World)
      → ℕ
      → Progress
      → ModelTurn
      → World
      → Result Stop AgentRunResult × World
  after_turn next step p turn w =
      if is_empty turn.tool_calls
      then (answer step p turn.output, w)
      else (if ltb spec.model_policy.max_tool_calls (p.tool_call_count + length turn.tool_calls)
          then (err (failed (failure tool_call_limit_exceeded false)), w)
          else go_on (λ context. next (record (announce spec p turn) { current = context }))
              (run_calls turn.tool_calls (announce spec p turn).current w))

  abbrev pub take_turn :
      (Progress → World → Result Stop AgentRunResult × World)
      → ℕ
      → Progress
      → Result GenerateError ModelTurn × World
      → Result Stop AgentRunResult × World
  take_turn next step p (err e, w) = (err (stop_of_generate e), w)
  take_turn next step p (ok turn, w) = after_turn next step (account p turn) turn w

  abbrev pub ask :
      (Progress → World → Result Stop AgentRunResult × World)
      → ℕ
      → Progress
      → World
      → Option ModelRequest
      → Result Stop AgentRunResult × World
  ask next step p w none = (err request_invalid, w)
  ask next step p w (some request) = take_turn next step p (services.generate request w)

  -- The loop, by the number of steps left.
  unfoldable pub run_steps : ℕ → ℕ → Progress → World → Result Stop AgentRunResult × World
  unfolding run_calls
  run_steps zero step p w = (err (failed (failure max_steps_exceeded false)), w)
  run_steps (suc left) step p w = ask (run_steps left (step + 1)) step p w (
      request_of p.current
        (list_specs services.tool_spec services.registry (some spec.tool_allowlist)))

  unfoldable pub run_bounded : AgentContext → World → Result Stop AgentRunResult × World
  unfolding run_steps
  run_bounded context w = run_steps spec.max_steps 1 (initial context) w

  -- The deadline is an error of its own.
  abbrev pub timed : Result Stop AgentRunResult × World → Result Stop AgentRunResult × World
  timed (err deadline, w) = (err (failed (failure timed_out true)), w)
  timed (err (failed e), w) = (err (failed e), w)
  timed (err request_invalid, w) = (err request_invalid, w)
  timed (ok result, w) = (ok result, w)

  unfoldable pub run : AgentContext → World → Result Stop AgentRunResult × World
  unfolding run_bounded
  run context w = timed (run_bounded context w)
