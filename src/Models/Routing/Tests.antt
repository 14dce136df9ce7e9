-- ===== src/Models/Routing/Tests.antt =====
-- Routing between two candidates: the first is limited in rate, and is retried once.
use multi_agent_based_intell.Prelude.{
  ℕ, ◌+◌, ◌≡◌, ◌↔◌, refl, true, false, none, some, [], ◌∷◌, ok, err, string_eq,
}
use multi_agent_based_intell.Domain.Json.{string, object, array, cons, nil, Fields, end, field}
use multi_agent_based_intell.Harness.ModelGateway.{FinishReason, no_usage, ModelTurn, ModelRequest}
use multi_agent_based_intell.Models.Schema.{value_conforms, properties_of}
use multi_agent_based_intell.Models.Schema.Relation.{Conforms}
use multi_agent_based_intell.Models.Schema.Meaning.{value_conforms-Conforms}
use multi_agent_based_intell.Models.Routing.{
  rate_limit, timeout, provider_error, ModelCandidate, ModelRoutingPolicy, attempt_of, routed,
  generate,
}
use multi_agent_based_intell.Models.Routing.Attempts.{Routed, generate-Routed}

-- The request asks for an object with a text under "message".
abbrev output_schema : Fields
output_schema = field "type" (string "object") (
    field "required" (array (cons (string "message") nil)) (
      field "properties"
        (object (field "message" (object (field "type" (string "string") end)) end)) end))

abbrev answer : Fields
answer = field "message" (string "hello") end

accepts : value_conforms output_schema (object answer) ≡ true
unfolding properties_of
accepts = refl

refuses : value_conforms output_schema (object (field "message" (array nil) end)) ≡ false
unfolding properties_of
refuses = refl

value_conforms-Conforms_example :
    (value_conforms output_schema (object answer) ≡ true) ↔ Conforms output_schema (object answer)
value_conforms-Conforms_example = value_conforms-Conforms output_schema (object answer)

abbrev request : ModelRequest
request = record {
  messages = [];
  tools = [];
  output_schema = some output_schema;
  policy = record {
    model_alias = "model";
    reasoning_effort = "low";
    temperature = 0;
    max_output_tokens = 4096;
    timeout_ms = 60000;
    max_tool_calls = 2;
  };
  trace = record { trace_id = "trace"; run_id = "run"; task_id = "task" };
}

abbrev turn : ModelTurn
turn = record {
  output = some answer;
  tool_calls = [];
  usage = no_usage;
  finish_reason = FinishReason.stop;
  model_id = "large";
  budget_partial = false;
  budget_exceeded_scopes = [];
  routing = none;
}

-- The world is the milliseconds slept.
abbrev limited : ModelCandidate ℕ
limited = record {
  provider_id = "first";
  model_id = "small";
  tier = 0;
  gateway = λ r w. (err (provider_error rate_limit), w);
  max_attempts = 2;
}

abbrev answering : ModelCandidate ℕ
answering = record {
  provider_id = "second";
  model_id = "large";
  tier = 1;
  gateway = λ r w. (ok turn, w);
  max_attempts = 1;
}

abbrev policy : ModelRoutingPolicy
policy = record {
  max_total_attempts = 5;
  retry_base_ms = 100;
  retry_max_ms = 2000;
  retryable_failures = rate_limit ∷ timeout ∷ [];
}

abbrev slept : ℕ → ℕ → ℕ
slept delay w = w + delay

falls_back : generate "agent" limited (answering ∷ []) policy slept request 0 ≡ (
  ok (
      routed "agent" 0 1 answering
        (attempt_of limited "rate_limit" ∷ attempt_of limited "rate_limit" ∷ [])
        turn),
  100,
)
unfolding generate properties_of
falls_back = refl

generate-Routed_example :
    Routed policy slept request
      (limited ∷ answering ∷ [])
      0
      "agent"
      0
      (generate "agent" limited (answering ∷ []) policy slept request 0).0
generate-Routed_example =
    generate-Routed "agent" limited (answering ∷ []) policy slept request 0 refl
