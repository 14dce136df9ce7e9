-- ===== src/Harness/Agent/Tests.antt =====
-- An agent that calls one tool once and then answers. The world is the log of generations and
-- handlers, the last one first.
use multi_agent_based_intell.Prelude.{
  ℕ, ◌+◌, ◌≤◌, String, ◌≡◌, refl, true, false, none, some, List, [], ◌∷◌, Result, ok, arith,
  string_eq, ◌==◌, is_empty, if◌then◌else◌, eq_iff, subst,
}
use multi_agent_based_intell.Prelude.Dict
use multi_agent_based_intell.Prelude.Sorting.{sort_by}
use multi_agent_based_intell.Domain.Json.{end}
use multi_agent_based_intell.Harness.ModelGateway.{
  FinishReason, ModelUsage, ModelTurn, ModelRequest,
}
use multi_agent_based_intell.Harness.ToolGateway.{ToolDefinition, DataModel, list_specs, execute}
use multi_agent_based_intell.Harness.Agent.{
  AgentContext, AgentSpec, AgentRunResult, GenerateError, initial,
}
use multi_agent_based_intell.Harness.Agent.Loop.{Services, run}
use multi_agent_based_intell.Harness.Agent.Budget.{MayCall}
use multi_agent_based_intell.Harness.Agent.Bounds.{Within, IsMetered, run-Within, IsKept, run_keeps}
use multi_agent_based_intell.Harness.Agent.Course.{Course, Accounted, run-Course}

abbrev Log : Type 0
Log = List String

abbrev any_model : DataModel
any_model = record { json_schema = end; model_validate = λ fields. some fields }

abbrev tool : String → ToolDefinition Log
tool name = record {
  name = name;
  description = "Write to the log.";
  input_model = any_model;
  output_model = any_model;
  handler = λ input context log. (ok input, name ∷ log);
}

abbrev usage : ModelUsage
usage = record {
  input_tokens = 5;
  output_tokens = 2;
  cached_input_tokens = 0;
  reasoning_tokens = 0;
  estimated_cost_microunits = 1;
}

abbrev asking : ModelTurn
asking = record {
  output = none;
  tool_calls = record { call_id = "call"; name = "log.allowed"; arguments = end } ∷ [];
  usage = usage;
  finish_reason = FinishReason.tool_calls;
  model_id = "model";
  budget_partial = true;
  budget_exceeded_scopes = "run" ∷ [];
  routing = none;
}

abbrev answering : ModelTurn
answering = record asking {
  output = some end;
  tool_calls = [];
  finish_reason = FinishReason.stop;
  budget_partial = false;
  budget_exceeded_scopes = [];
}

abbrev generate : ModelRequest → Log → Result GenerateError ModelTurn × Log
generate request log = (ok (if is_empty log then asking else answering), "model" ∷ log)

abbrev services : Services Log
services = record {
  generate = generate;
  registry = ("log.allowed", tool "log.allowed") ∷ ("log.other", tool "log.other") ∷ [];
  tool_spec = λ spec. some spec;
  elapsed_ms = λ started ended. 0;
  dumps = λ fields. "{}";
}

abbrev spec : AgentSpec
spec = record {
  agent_id = "agent";
  system_prompt = "Answer.";
  output_model = any_model;
  model_policy = record {
    model_alias = "model";
    reasoning_effort = "low";
    temperature = 0;
    max_output_tokens = 4096;
    timeout_ms = 60000;
    max_tool_calls = 2;
  };
  tool_allowlist = "log.allowed" ∷ [];
  max_steps = 3;
  timeout_ms = 1000;
}

abbrev context : AgentContext
context = record { run_id = "run"; task_id = "task"; trace_id = "trace"; messages = [] }

abbrev result : AgentRunResult
result = record {
  output = end;
  usage = record {
    input_tokens = 10;
    output_tokens = 4;
    cached_input_tokens = 0;
    reasoning_tokens = 0;
    estimated_cost_microunits = 2;
  };
  steps = 2;
  tool_calls = 1;
  partial = true;
  budget_exceeded_scopes = "run" ∷ [];
}

two_turns : run services spec context [] ≡ (ok result, "model" ∷ "log.allowed" ∷ "model" ∷ [])
unfolding run list_specs execute Dict.get sort_by
two_turns = refl

run-Course_example :
    (turns : List ModelTurn) × Course services spec context [] turns end
      ("model" ∷ "log.allowed" ∷ "model" ∷ [])
    × Accounted (initial context) 1 turns result
run-Course_example =
    run-Course services spec result ("model" ∷ "log.allowed" ∷ "model" ∷ []) context [] two_turns

abbrev count_of : String → Log → ℕ
count_of name [] = 0
count_of name (entry ∷ log) = let n = count_of name log in if entry == name then n + 1 else n

abbrev models : Log → ℕ
models log = count_of "model" log

abbrev calls : Log → ℕ
calls log = count_of "log.allowed" log

MayCall-tool : (t : ToolDefinition Log) → MayCall services spec t → tool "log.allowed" ≡ t
unfolding Dict.get
MayCall-tool t (name, allowed, at) =
    ground (arith, eq_iff "log.allowed" name, eq_iff "log.other" name)

metered : IsMetered services spec models calls
metered = record {
  generation = λ request log. (omega arith, omega arith);
  handling = λ t input k log may.
      subst (λ u. Within services spec models calls 0 1 log (u.handler input k log).1)
        (MayCall-tool t may) (omega arith, omega arith);
}

run-Within_example :
    (models (run services spec context []).1 ≤ 0 + 3)
    × (calls (run services spec context []).1 ≤ 0 + 2)
run-Within_example = run-Within services spec models calls metered context []

-- Nobody calls the tool that is not in the allowlist.
abbrev OtherUnused : Log → Type 0
OtherUnused log = count_of "log.other" log ≡ 0

other_unused : IsKept services spec OtherUnused
other_unused = record {
  generation = λ request log h. h;
  handling = λ t input k log may h.
      subst (λ u. OtherUnused (u.handler input k log).1) (MayCall-tool t may) h;
}

run_keeps_example : OtherUnused (run services spec context []).1
run_keeps_example = run_keeps services spec OtherUnused other_unused context [] refl
