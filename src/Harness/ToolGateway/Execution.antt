-- ===== src/Harness/ToolGateway/Execution.antt =====
-- What the gateway lets through: a handler runs only for a tool that the agent may call, that is
-- registered, and on arguments that its schema accepts.
use multi_agent_based_intell.Prelude.{
  ℕ, String, ◌≡◌, refl, inl, inr, true, false, none, some, List, Result, ok, err, string_eq,
  contains, Bool-cases, Option-cases, subst,
}
use multi_agent_based_intell.Prelude.Dict
use multi_agent_based_intell.Domain.Json.{Fields}
use multi_agent_based_intell.Harness.ToolGateway.{
  ToolGatewayError, CallError, gateway, permission_denied, tool_not_found, input_invalid,
  output_invalid, ToolContext, ToolExecutionResult, ToolDefinition, ToolRegistry, validated,
  handled, resolved, execute,
}

module _ {World : Type 0} where
  -- The call may reach `tool`, with `input` as its validated arguments.
  pub record Authorised (registry : ToolRegistry World) (allowlist : List String)
      (tool_name : String) (arguments : Fields) (tool : ToolDefinition World) (input : Fields)
      : Type 0 where
    pub allowed : contains allowlist tool_name ≡ true
    pub registered : Dict.get registry tool_name ≡ some tool
    pub accepted : tool.input_model.model_validate arguments ≡ some input

  -- Why a call does not reach a handler: the first guard that fails.
  pub data Refusal (registry : ToolRegistry World) (allowlist : List String) (tool_name : String)
      (arguments : Fields) : ToolGatewayError → Type 0 where
    not_allowed :
        contains allowlist tool_name ≡ false
        → Refusal registry allowlist tool_name arguments permission_denied
    not_registered :
        contains allowlist tool_name ≡ true
        → Dict.get registry tool_name ≡ none
        → Refusal registry allowlist tool_name arguments tool_not_found
    not_accepted :
        (tool : ToolDefinition World)
        → contains allowlist tool_name ≡ true
        → Dict.get registry tool_name ≡ some tool
        → tool.input_model.model_validate arguments ≡ none
        → Refusal registry allowlist tool_name arguments input_invalid

  -- How a call ends whose handler has ended: what the handler raises is raised, and what it returns
  -- is checked by the tool's output model.
  pub data Delivered (call_id tool_name : String) (tool : ToolDefinition World)
      : Result CallError Fields × World
        → Result CallError ToolExecutionResult × World
        → Type 0 where
    raised : (e : CallError) (w : World) → Delivered call_id tool_name tool (err e, w) (err e, w)
    bad_output :
        (raw : Fields) (w : World)
        → tool.output_model.model_validate raw ≡ none
        → Delivered call_id tool_name tool (ok raw, w) (err (gateway output_invalid), w)
    answered :
        (raw : Fields) (w : World) (result : ToolExecutionResult)
        → tool.output_model.model_validate raw ≡ some result.output
        → result.call_id ≡ call_id
        → result.tool_name ≡ tool_name
        → Delivered call_id tool_name tool (ok raw, w) (ok result, w)

  pub data Executed (registry : ToolRegistry World) (call_id tool_name : String)
      (arguments : Fields) (context : ToolContext) (allowlist : List String) (w : World)
      : Result CallError ToolExecutionResult × World → Type 0 where
    refused :
        (e : ToolGatewayError)
        → Refusal registry allowlist tool_name arguments e
        → Executed registry call_id tool_name arguments context allowlist w (err (gateway e), w)
    ran :
        (tool : ToolDefinition World) (input : Fields)
        (reply : Result CallError ToolExecutionResult × World)
        → Authorised registry allowlist tool_name arguments tool input
        → Delivered call_id tool_name tool (tool.handler input context w) reply
        → Executed registry call_id tool_name arguments context allowlist w reply

pub Delivered-world :
    {World : Type 0} {call_id tool_name : String} {tool : ToolDefinition World}
    {end : Result CallError Fields × World} {reply : Result CallError ToolExecutionResult × World}
    → Delivered call_id tool_name tool end reply
    → end.1 ≡ reply.1
Delivered-world (raised e w) = refl
Delivered-world (bad_output raw w e) = refl
Delivered-world (answered raw w result e p q) = refl

module _ {World : Type 0} (elapsed_ms : World → World → ℕ) where
  validated-Delivered :
      (call_id tool_name : String) (tool : ToolDefinition World) (started ended : World)
      (raw : Fields)
      → Delivered call_id tool_name tool
          (ok raw, ended)
          (validated elapsed_ms call_id tool_name started ended
            (tool.output_model.model_validate raw))
  validated-Delivered call_id tool_name tool started ended raw =
      elim (Option-cases (tool.output_model.model_validate raw)) [
        | inl bad ↦ rw bad (bad_output raw ended bad)
        | inr (output, e) ↦ rw e (answered raw ended _ e refl refl)
      ]

  handled-Delivered :
      (call_id tool_name : String) (tool : ToolDefinition World) (started : World)
      (end : Result CallError Fields × World)
      → Delivered call_id tool_name tool end (handled elapsed_ms call_id tool_name tool started end)
  handled-Delivered call_id tool_name tool started (err e, w) = raised e w
  handled-Delivered call_id tool_name tool started (ok raw, w) =
      validated-Delivered call_id tool_name tool started w raw

  module _ (registry : ToolRegistry World) (call_id tool_name : String) (arguments : Fields)
      (context : ToolContext) (allowlist : List String) (w : World) where
    registered-Executed :
        (tool : ToolDefinition World)
        → contains allowlist tool_name ≡ true
        → Dict.get registry tool_name ≡ some tool
        → Executed registry call_id tool_name arguments context allowlist w
            (resolved elapsed_ms call_id tool_name arguments context w (some tool))
    registered-Executed tool allowed at =
        elim (Option-cases (tool.input_model.model_validate arguments)) [
          | inl bad ↦ rw bad (refused _ (not_accepted tool allowed at bad))
          | inr (input, good) ↦ rw good (
              ran tool input _ (record { allowed = allowed; registered = at; accepted = good })
                (handled-Delivered call_id tool_name tool w (tool.handler input context w)))
        ]

    -- A call either is refused by the first of the three guards that fails (the allowlist, the
    -- registry, the input schema), and then nothing changes; or all three hold, and then the
    -- handler runs once on the validated arguments, what it raises is raised, what it returns is
    -- refused or accepted by the output schema, and an accepted result carries the validated output
    -- and the call's id and tool.
    pub execute-Executed :
        Executed registry call_id tool_name arguments context allowlist w
          (execute elapsed_ms registry call_id tool_name arguments context allowlist w)
    unfolding execute
    execute-Executed = elim (Bool-cases (contains allowlist tool_name)) [
      | inr denied ↦ rw denied (refused _ (not_allowed denied))
      | inl allowed ↦ rw allowed (elim (Option-cases (Dict.get registry tool_name)) [
        | inl missing ↦ rw missing (refused _ (not_registered allowed missing))
        | inr (tool, at) ↦ rw at (registered-Executed tool allowed at)
      ])
    ]

-- What holds of the world before a call, and after each handler that the call may reach, holds
-- after the call.
pub Executed_world {ℓ} :
    {World : Type 0} (P : World → Type ℓ) {registry : ToolRegistry World}
    {call_id tool_name : String} {arguments : Fields} {context : ToolContext}
    {allowlist : List String} {w : World} {reply : Result CallError ToolExecutionResult × World}
    → Executed registry call_id tool_name arguments context allowlist w reply
    → P w
    → ((tool : ToolDefinition World) (input : Fields)
        → Authorised registry allowlist tool_name arguments tool input
        → P (tool.handler input context w).1)
    → P reply.1
Executed_world P (refused e why) h f = h
Executed_world P (ran tool input reply a d) h f = subst P (Delivered-world d) (f tool input a)
