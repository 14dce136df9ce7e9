-- ===== src/Harness/Agent/Bounds.antt =====
-- What an agent may spend and what its tools may change, however its loop ends.
use multi_agent_based_intell.Prelude.{ℕ, ◌+◌, ◌≤◌, arith}
use multi_agent_based_intell.Domain.Json.{Fields}
use multi_agent_based_intell.Harness.ModelGateway.{ModelRequest}
use multi_agent_based_intell.Harness.ToolGateway.{ToolContext, ToolDefinition}
use multi_agent_based_intell.Harness.Agent.{AgentContext, AgentSpec}
use multi_agent_based_intell.Harness.Agent.Loop.{Services, run}
use multi_agent_based_intell.Harness.Agent.Budget.{MayCall, run_paid}

module _ {World : Type 0} (services : Services World) (spec : AgentSpec) where
  module _ (models calls : World → ℕ) where
    -- `w'` is reached from `w` by at most `m` generations and at most `c` handlers.
    abbrev pub Within : ℕ → ℕ → World → World → Type 0
    Within m c w w' = (models w' ≤ models w + m) × (calls w' ≤ calls w + c)

    -- `models` counts generations and `calls` handlers.
    pub record IsMetered : Type 0 where
      pub generation :
          (request : ModelRequest) (w : World) → Within 1 0 w (services.generate request w).1
      pub handling :
          (tool : ToolDefinition World) (input : Fields) (context : ToolContext) (w : World)
          → MayCall services spec tool
          → Within 0 1 w (tool.handler input context w).1

    -- However a run ends, it makes at most `max_steps` generations, and at most `max_tool_calls`
    -- handlers run, where `models` and `calls` count them.
    pub run-Within :
        IsMetered
        → (context : AgentContext) (w : World)
        → Within spec.max_steps spec.model_policy.max_tool_calls w (run services spec context w).1
    run-Within metered context w = omega (arith, spent)
      where
        spent :
            (models (run services spec context w).1 + 0 ≤ models w + spec.max_steps)
            × (calls (run services spec context w).1 + 0
                ≤ calls w + spec.model_policy.max_tool_calls)
        spent =
            run_paid services spec
              (λ m c v.
                (models v + m ≤ models w + spec.max_steps)
                × (calls v + c ≤ calls w + spec.model_policy.max_tool_calls))
              (record {
                generation = λ m c request v h. omega (arith, metered.generation request v);
                handling =
                    λ m c tool input k v may h. omega (arith, metered.handling tool input k v may);
                fewer_generations = λ m c v h. omega arith;
                fewer_handlers = λ m c v h. omega arith;
              })
              context w (omega arith, omega arith)

  -- The model keeps `P`, and so does each tool that the agent may call.
  pub record IsKept (P : World → Type 0) : Type 0 where
    pub generation : (request : ModelRequest) (w : World) → P w → P (services.generate request w).1
    pub handling :
        (tool : ToolDefinition World) (input : Fields) (context : ToolContext) (w : World)
        → MayCall services spec tool
        → P w
        → P (tool.handler input context w).1

  -- What the model and every registered tool of the allowlist keep, an agent's run keeps, however
  -- it ends: no other tool acts on the world.
  pub run_keeps :
      (P : World → Type 0)
      → IsKept P
      → (context : AgentContext) (w : World) → P w
      → P (run services spec context w).1
  run_keeps P kept context w h =
      run_paid services spec (λ m c. P)
        (record {
          generation = λ m c. kept.generation;
          handling = λ m c. kept.handling;
          fewer_generations = λ m c v k. k;
          fewer_handlers = λ m c v k. k;
        })
        context w h
