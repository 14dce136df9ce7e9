-- ===== src/Harness/ToolGateway.antt =====
-- packages/harness/tool_gateway.py: the registry of tools, and the one path on which an agent calls
-- them. `World` is what handlers read and change. A pydantic model is its JSON schema and its
-- validation, and an instance is the members that it dumps to.
pub mod Registry
pub mod Execution
mod Tests
use multi_agent_based_intell.Prelude.{
  ℕ, String, Bool, true, not, Option, none, some, List, [], ◌∷◌, Result, ok, err, string_eq,
  contains, and_then, select, if◌then◌else◌, ◌>>=◌,
}
use multi_agent_based_intell.Prelude.Dict
use multi_agent_based_intell.Prelude.Dict.{Dict}
use multi_agent_based_intell.Prelude.Sorting.{sort_by}
use multi_agent_based_intell.Prelude.Strings.{str_le}
use multi_agent_based_intell.Domain.Json.{Fields}
use multi_agent_based_intell.Harness.ModelGateway.{ModelToolSpec}

pub data ToolGatewayError : Type 0 where
  tool_gateway_error tool_not_found permission_denied input_invalid output_invalid :
      ToolGatewayError

-- What a call raises: an error of the gateway, any other exception of a handler, or the cancellation
-- of a handler at the deadline of its agent.
pub data CallError : Type 0 where
  gateway : ToolGatewayError → CallError
  handler_failed cancelled : CallError

pub record ToolContext : Type 0 where
  pub run_id : String
  pub task_id : String
  pub agent_id : String
  pub trace_id : String

pub record ToolExecutionResult : Type 0 where
  pub call_id : String
  pub tool_name : String
  pub output : Fields
  pub latency_ms : ℕ

pub record DataModel : Type 0 where
  pub json_schema : Fields
  pub model_validate : Fields → Option Fields

pub record ToolDefinition (World : Type 0) : Type 0 where
  pub name : String
  pub description : String
  pub input_model : DataModel
  pub output_model : DataModel
  pub handler : Fields → ToolContext → World → Result CallError Fields × World

abbrev pub ToolRegistry : Type 0 → Type 0
ToolRegistry World = Dict String (ToolDefinition World)

-- The constructor of `ModelToolSpec`, which pydantic checks.
abbrev pub SpecCheck : Type 0
SpecCheck = ModelToolSpec → Option ModelToolSpec

pub data RegistryError : Type 0 where
  spec_invalid already_registered : RegistryError

module _ {World : Type 0} (check_spec : SpecCheck) where
  abbrev pub model_spec : ToolDefinition World → Option ModelToolSpec
  model_spec definition = check_spec (record {
    name = definition.name;
    description = definition.description;
    input_schema = definition.input_model.json_schema;
  })

  abbrev pub register_checked :
      ToolRegistry World
      → ToolDefinition World
      → Option ModelToolSpec
      → Result RegistryError (ToolRegistry World)
  register_checked registry definition none = err spec_invalid
  register_checked registry definition (some spec) =
      if Dict.has registry definition.name
      then err already_registered
      else ok (Dict.put registry definition.name definition)

  unfoldable pub register :
      ToolRegistry World → ToolDefinition World → Result RegistryError (ToolRegistry World)
  register registry definition = register_checked registry definition (model_spec definition)

  -- The constructor's loop.
  unfoldable pub register_all :
      ToolRegistry World → List (ToolDefinition World) → Result RegistryError (ToolRegistry World)
  unfolding register
  register_all registry [] = ok registry
  register_all registry (definition ∷ rest) =
      register registry definition >>= λ next. register_all next rest

  abbrev pub name_before : String × ToolDefinition World → String × ToolDefinition World → Bool
  name_before a b = str_le a.0 b.0

  -- `allowed is None or name in allowed`
  abbrev pub is_allowed : Option (List String) → String × ToolDefinition World → Bool
  is_allowed none item = true
  is_allowed (some allowed) item = contains allowed item.0

  -- The specs of the definitions in turn; `none` where one is refused.
  unfoldable pub specs_of : List (String × ToolDefinition World) → Option (List ModelToolSpec)
  specs_of [] = some []
  specs_of ((name, definition) ∷ rest) =
      and_then (model_spec definition) λ spec. and_then (specs_of rest) λ specs. some (spec ∷ specs)

  unfoldable pub list_specs :
      ToolRegistry World → Option (List String) → Option (List ModelToolSpec)
  unfolding specs_of
  list_specs registry allowlist =
      specs_of (select (is_allowed allowlist) (sort_by name_before registry))

module _ {World : Type 0} (elapsed_ms : World → World → ℕ) where
  abbrev pub validated :
      (call_id tool_name : String)
      → (started ended : World) → Option Fields
      → Result CallError ToolExecutionResult × World
  validated call_id tool_name started ended none = (err (gateway output_invalid), ended)
  validated call_id tool_name started ended (some output) = (
    ok (record {
      call_id = call_id;
      tool_name = tool_name;
      output = output;
      latency_ms = elapsed_ms started ended;
    }),
    ended,
  )

  abbrev pub handled :
      (call_id tool_name : String)
      → ToolDefinition World
      → World
      → Result CallError Fields × World
      → Result CallError ToolExecutionResult × World
  handled call_id tool_name definition started (err e, ended) = (err e, ended)
  handled call_id tool_name definition started (ok raw, ended) =
      validated call_id tool_name started ended (definition.output_model.model_validate raw)

  abbrev pub invoked :
      (call_id tool_name : String)
      → ToolDefinition World
      → ToolContext
      → World
      → Option Fields
      → Result CallError ToolExecutionResult × World
  invoked call_id tool_name definition context w none = (err (gateway input_invalid), w)
  invoked call_id tool_name definition context w (some input) =
      handled call_id tool_name definition w (definition.handler input context w)

  abbrev pub resolved :
      (call_id tool_name : String)
      → Fields
      → ToolContext
      → World
      → Option (ToolDefinition World)
      → Result CallError ToolExecutionResult × World
  resolved call_id tool_name arguments context w none = (err (gateway tool_not_found), w)
  resolved call_id tool_name arguments context w (some definition) =
      invoked call_id tool_name definition context w
        (definition.input_model.model_validate arguments)

  unfoldable pub execute :
      ToolRegistry World
      → (call_id tool_name : String) → Fields
      → ToolContext
      → List String
      → World
      → Result CallError ToolExecutionResult × World
  execute registry call_id tool_name arguments context allowlist w =
      if not (contains allowlist tool_name)
      then (err (gateway permission_denied), w)
      else resolved call_id tool_name arguments context w (Dict.get registry tool_name)
