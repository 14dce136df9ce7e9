-- ===== src/Harness/Agent.antt =====
-- packages/harness/agent.py: the bounded loop of `BaseAgent` between a model and the tools. `World`
-- is what the model gateway and the tools read and change; the deadline of `run` cancels a call
-- that waits for either. `json.dumps` and the clock are arguments.
pub mod Loop
pub mod Bounds
pub mod Budget
pub mod Course
mod Tests
use Prim.Native.String as Text
use multi_agent_based_intell.Prelude.{
  ℕ, ◌+◌, String, Bool, true, false, ◌||◌, none, some, List, [], ◌∷◌, ◌++◌, Result, ok, err, ltb,
  nat_beq, string_eq, contains, length, if◌then◌else◌,
}
use multi_agent_based_intell.Prelude.Strings.{show_nat}
use multi_agent_based_intell.Domain.Json.{Fields}
use multi_agent_based_intell.Harness.ModelGateway.{
  assistant, ModelMessage, ModelPolicy, ModelUsage, no_usage, add_usage, ModelTurn,
}
use multi_agent_based_intell.Harness.ToolGateway.{
  CallError, gateway, handler_failed, cancelled, DataModel,
}

pub data AgentErrorCode : Type 0 where
  model_error tool_policy_error tool_execution_error output_validation_error : AgentErrorCode
  max_steps_exceeded tool_call_limit_exceeded timed_out : AgentErrorCode

pub record AgentExecutionError : Type 0 where
  pub code : AgentErrorCode
  pub retryable : Bool

abbrev pub failure : AgentErrorCode → Bool → AgentExecutionError
failure code retryable = record { code = code; retryable = retryable }

-- What ends the loop early: a classified error, the deadline, or a request that pydantic refuses.
pub data Stop : Type 0 where
  failed : AgentExecutionError → Stop
  deadline request_invalid : Stop

pub record AgentContext : Type 0 where
  pub run_id : String
  pub task_id : String
  pub trace_id : String
  pub messages : List ModelMessage

-- `AgentContext.append`
abbrev pub append : AgentContext → ModelMessage → AgentContext
append context message = record context { messages = context.messages ++ message ∷ [] }

pub record AgentSpec : Type 0 where
  pub agent_id : String
  pub system_prompt : String
  pub output_model : DataModel
  pub model_policy : ModelPolicy
  pub tool_allowlist : List String
  pub max_steps : ℕ
  pub timeout_ms : ℕ

pub data SpecError : Type 0 where
  steps_out_of_range timeout_out_of_range : SpecError

-- `AgentSpec.__post_init__`
unfoldable pub check_spec : AgentSpec → Result SpecError AgentSpec
check_spec spec =
    if ltb spec.max_steps 1 || ltb 50 spec.max_steps
    then err steps_out_of_range
    else if nat_beq spec.timeout_ms 0 || ltb 1800000 spec.timeout_ms
    then err timeout_out_of_range
    else ok spec

pub record AgentRunResult : Type 0 where
  pub output : Fields
  pub usage : ModelUsage
  pub steps : ℕ
  pub tool_calls : ℕ
  pub partial : Bool
  pub budget_exceeded_scopes : List String

-- How a generation ends: with a turn, with an error that the gateway has classified itself, with
-- any other exception, or by the deadline.
pub data GenerateError : Type 0 where
  classified : AgentExecutionError → GenerateError
  provider_failed deadline_passed : GenerateError

-- The variables of the loop.
pub record Progress : Type 0 where
  pub usage : ModelUsage
  pub tool_call_count : ℕ
  pub partial : Bool
  -- A set: each scope once.
  pub exceeded_scopes : List String
  pub current : AgentContext

-- `exceeded_scopes.update(scopes)`
abbrev pub add_scopes : List String → List String → List String
add_scopes scopes [] = scopes
add_scopes scopes (scope ∷ rest) =
    add_scopes (if contains scopes scope then scopes else scopes ++ scope ∷ []) rest

-- The usage and the budget status of a turn.
abbrev pub account : Progress → ModelTurn → Progress
account p turn = record p {
  usage = add_usage p.usage turn.usage;
  partial = p.partial || turn.budget_partial;
  exceeded_scopes =
      if turn.budget_partial
      then add_scopes p.exceeded_scopes turn.budget_exceeded_scopes
      else p.exceeded_scopes;
}

abbrev pub requested_text : ℕ → String
requested_text n = Text.◌++◌ "requested " (Text.◌++◌ (show_nat n) " validated tool call(s)")

-- The count of calls, and the message that announces them.
abbrev pub announce : AgentSpec → Progress → ModelTurn → Progress
announce spec p turn = record p {
  tool_call_count = p.tool_call_count + length turn.tool_calls;
  current = append p.current (record {
    role = assistant;
    content = requested_text (length turn.tool_calls);
    name = some spec.agent_id;
    tool_call_id = none;
  });
}

-- The errors of a tool call as the loop classifies them.
abbrev pub stop_of : CallError → Stop
stop_of (gateway e) = failed (failure tool_policy_error false)
stop_of handler_failed = failed (failure tool_execution_error true)
stop_of cancelled = deadline

abbrev pub initial : AgentContext → Progress
initial context = record {
  usage = no_usage;
  tool_call_count = 0;
  partial = false;
  exceeded_scopes = [];
  current = context;
}
