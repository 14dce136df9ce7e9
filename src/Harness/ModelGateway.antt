-- ===== src/Harness/ModelGateway.antt =====
-- packages/harness/model_gateway.py: the requests, turns and usage counters that agents exchange
-- with models. A temperature is in thousandths, a time in milliseconds.
use multi_agent_based_intell.Prelude.{
  ℕ, ◌+◌, String, Bool, true, not, ◌&&◌, ◌||◌, Option, List, map, is_some, is_empty, is_unique,
  string_eq,
}
use multi_agent_based_intell.Domain.Json.{Fields}

pub data MessageRole : Type 0 where
  system user assistant tool : MessageRole

pub data FinishReason : Type 0 where
  stop tool_calls length content_filter : FinishReason

pub record ModelMessage : Type 0 where
  pub role : MessageRole
  pub content : String
  pub name : Option String
  pub tool_call_id : Option String

-- `tool_messages_identify_the_call`
abbrev pub message_valid : ModelMessage → Bool
message_valid message = elim message.role [
  | MessageRole.tool ↦ is_some message.tool_call_id
  | _ ↦ not (is_some message.tool_call_id)
]

pub record ModelToolSpec : Type 0 where
  pub name : String
  pub description : String
  pub input_schema : Fields

pub record ModelPolicy : Type 0 where
  pub model_alias : String
  pub reasoning_effort : String
  pub temperature : ℕ
  pub max_output_tokens : ℕ
  pub timeout_ms : ℕ
  pub max_tool_calls : ℕ

pub record TraceContext : Type 0 where
  pub trace_id : String
  pub run_id : String
  pub task_id : String

pub record ModelUsage : Type 0 where
  pub input_tokens : ℕ
  pub output_tokens : ℕ
  pub cached_input_tokens : ℕ
  pub reasoning_tokens : ℕ
  pub estimated_cost_microunits : ℕ

abbrev pub no_usage : ModelUsage
no_usage = record {
  input_tokens = 0;
  output_tokens = 0;
  cached_input_tokens = 0;
  reasoning_tokens = 0;
  estimated_cost_microunits = 0;
}

abbrev pub total_tokens : ModelUsage → ℕ
total_tokens usage = usage.input_tokens + usage.output_tokens

-- `ModelUsage.add`
abbrev pub add_usage : ModelUsage → ModelUsage → ModelUsage
add_usage a b = record {
  input_tokens = a.input_tokens + b.input_tokens;
  output_tokens = a.output_tokens + b.output_tokens;
  cached_input_tokens = a.cached_input_tokens + b.cached_input_tokens;
  reasoning_tokens = a.reasoning_tokens + b.reasoning_tokens;
  estimated_cost_microunits = a.estimated_cost_microunits + b.estimated_cost_microunits;
}

pub record ModelToolCall : Type 0 where
  pub call_id : String
  pub name : String
  pub arguments : Fields

pub record ModelRouteAttempt : Type 0 where
  pub provider_id : String
  pub model_id : String
  pub outcome : String

pub record ModelRouting : Type 0 where
  pub selected_provider : String
  pub selected_model : String
  pub attempts : List ModelRouteAttempt
  pub fallback_used : Bool
  pub escalation_used : Bool
  pub brain_downgraded : Bool

pub record ModelTurn : Type 0 where
  pub output : Option Fields
  pub tool_calls : List ModelToolCall
  pub usage : ModelUsage
  pub finish_reason : FinishReason
  pub model_id : String
  -- `budget_status == "partial"`
  pub budget_partial : Bool
  pub budget_exceeded_scopes : List String
  pub routing : Option ModelRouting

-- What a finish reason asks of the payload.
abbrev pub reason_matches : FinishReason → ModelTurn → Bool
reason_matches FinishReason.tool_calls turn = not (is_empty turn.tool_calls)
reason_matches FinishReason.stop turn = is_some turn.output
reason_matches FinishReason.length turn = true
reason_matches FinishReason.content_filter turn = true

-- `finish_reason_matches_payload`
abbrev pub turn_valid : ModelTurn → Bool
turn_valid turn =
    reason_matches turn.finish_reason turn
    && (is_empty turn.tool_calls || not (is_some turn.output))

pub record ModelRequest : Type 0 where
  pub messages : List ModelMessage
  pub tools : List ModelToolSpec
  pub output_schema : Option Fields
  pub policy : ModelPolicy
  pub trace : TraceContext

-- The bound on `messages`, and `tool_names_are_unique`.
abbrev pub request_valid : ModelRequest → Bool
request_valid request =
    not (is_empty request.messages)
    && is_unique (map (λ (tool : ModelToolSpec). tool.name) request.tools)
