-- ===== src/Harness/ToolGateway/Tests.antt =====
-- The tool gateway on a registry of one tool, whose handler writes its task to a log.
use multi_agent_based_intell.Prelude.{ℕ, String, ◌≡◌, refl, some, List, [], ◌∷◌, ok, err}
use multi_agent_based_intell.Prelude.Dict
use multi_agent_based_intell.Domain.Json.{end}
use multi_agent_based_intell.Harness.ModelGateway.{ModelToolSpec}
use multi_agent_based_intell.Harness.ToolGateway.{
  gateway, permission_denied, ToolContext, ToolDefinition, ToolRegistry, register_all, list_specs,
  execute,
}
use multi_agent_based_intell.Harness.ToolGateway.Registry.{Listed, list_specs-Listed}
use multi_agent_based_intell.Harness.ToolGateway.Execution.{Executed, execute-Executed}

abbrev Log : Type 0
Log = List String

abbrev echo : ToolDefinition Log
echo = record {
  name = "fixture.echo";
  description = "Return its input.";
  input_model = record { json_schema = end; model_validate = λ fields. some fields };
  output_model = record { json_schema = end; model_validate = λ fields. some fields };
  handler = λ input context log. (ok input, context.task_id ∷ log);
}

abbrev registry : ToolRegistry Log
registry = ("fixture.echo", echo) ∷ []

abbrev context : ToolContext
context = record { run_id = "run"; task_id = "task"; agent_id = "agent"; trace_id = "trace" }

abbrev no_time : Log → Log → ℕ
no_time started ended = 0

registered : register_all (λ spec. some spec) [] (echo ∷ []) ≡ ok registry
unfolding register_all Dict.get Dict.put
registered = refl

denied :
    execute no_time registry "call" "fixture.echo" end context ("other.tool" ∷ []) []
    ≡ (err (gateway permission_denied), [])
unfolding execute
denied = refl

allowed :
    (execute no_time registry "call" "fixture.echo" end context ("fixture.echo" ∷ []) []).1
    ≡ "task" ∷ []
unfolding execute Dict.get
allowed = refl

list_specs-Listed_example :
    (specs : List ModelToolSpec) × (list_specs
        (λ spec. some spec)
        registry
        (some ("fixture.echo" ∷ []))
      ≡ some specs)
    × Listed (λ spec. some spec) registry (some ("fixture.echo" ∷ [])) specs
list_specs-Listed_example =
    list_specs-Listed (λ spec. some spec) (echo ∷ []) (some ("fixture.echo" ∷ [])) registered

execute-Executed_example :
    Executed registry "call" "fixture.echo" end context
      ("fixture.echo" ∷ [])
      []
      (execute no_time registry "call" "fixture.echo" end context ("fixture.echo" ∷ []) [])
execute-Executed_example =
    execute-Executed no_time registry "call" "fixture.echo" end context ("fixture.echo" ∷ []) []
