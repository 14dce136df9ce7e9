-- ===== src/Models/Ledger/Tests.antt =====
-- The ledger's theorems on a small ledger.
use multi_agent_based_intell.Prelude.{
  ℕ, String, ◌≡◌, refl, true, none, some, [], ◌∷◌, ok, string_eq,
}
use multi_agent_based_intell.Harness.ModelGateway.{ModelUsage}
use multi_agent_based_intell.Models.Ledger.{
  ModelPrice, estimate, UsageEntry, Ledger, BudgetDecision, model_entry, append, decision, total_if,
  run_scope,
}
use multi_agent_based_intell.Models.Ledger.Budgets.{Appended, append-Appended}

abbrev usage : ModelUsage
usage = record {
  input_tokens = 1000;
  output_tokens = 10;
  cached_input_tokens = 400;
  reasoning_tokens = 0;
  estimated_cost_microunits = 0;
}

abbrev price : ModelPrice
price = record {
  provider = "provider";
  input_per_million_microunits = 1000;
  cached_input_per_million_microunits = 100;
  output_per_million_microunits = 5000;
}

-- 600 and 40 and 50 thousandths: one microunit.
one_microunit : estimate price usage ≡ 1
unfolding estimate
one_microunit = refl

abbrev entry : String → ℕ → UsageEntry
entry id cost = model_entry id "run" "agent" "provider" "model" usage 0 cost

abbrev ledger : Ledger
ledger = record {
  price_book = record { models = ("model", price) ∷ []; tools = [] };
  limits = record { run_microunits = some 10; agent_microunits = none; day_microunits = none };
  entries = entry "first" 7 ∷ [];
}

abbrev over : BudgetDecision
over = record {
  partial_status = true;
  exceeded_scopes = run_scope ∷ [];
  run_total_microunits = 12;
  agent_total_microunits = 12;
  day_total_microunits = 12;
}

over_budget : (append ledger (entry "second" 5)).0 ≡ ok (entry "second" 5, over)
unfolding append decision total_if
over_budget = refl

append-Appended_example : Appended ledger (entry "second" 5) (append ledger (entry "second" 5))
append-Appended_example = append-Appended ledger (entry "second" 5)
