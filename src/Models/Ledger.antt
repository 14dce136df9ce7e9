-- ===== src/Models/Ledger.antt =====
-- packages/models/ledger.py: prices, the ledger of usage, and its budget decisions. A cost is in
-- microunits; an instant is in microseconds, so its UTC date is its quotient by a day's.
pub mod Budgets
mod Tests
use multi_agent_based_intell.Prelude.{
  ℕ, ◌+◌, ◌-◌, ◌*◌, ◌/◌, String, Bool, false, not, ◌&&◌, Option, none, some, List, [], ◌∷◌, ◌++◌,
  Result, ok, err, ltb, nat_beq, ◌==◌, string_eq, any_of, is_empty, if◌then◌else◌,
}
use multi_agent_based_intell.Prelude.Dict
use multi_agent_based_intell.Harness.ModelGateway.{ModelUsage, no_usage}
use multi_agent_based_intell.Prelude.Dict.{Dict}

pub record ModelPrice : Type 0 where
  pub provider : String
  pub input_per_million_microunits : ℕ
  pub cached_input_per_million_microunits : ℕ
  pub output_per_million_microunits : ℕ

abbrev pub smaller : ℕ → ℕ → ℕ
smaller a b = if ltb b a then b else a

-- The numerator of `ModelPrice.estimate`.
abbrev pub numerator : ModelPrice → ModelUsage → ℕ
numerator price usage =
    let cached = smaller usage.cached_input_tokens usage.input_tokens in
    let uncached = usage.input_tokens - cached in
    uncached * price.input_per_million_microunits
    + cached * price.cached_input_per_million_microunits
    + usage.output_tokens * price.output_per_million_microunits

-- `ModelPrice.estimate`
unfoldable pub estimate : ModelPrice → ModelUsage → ℕ
estimate price usage = (numerator price usage + 999999) / 1000000

pub record PriceBook : Type 0 where
  pub models : Dict String ModelPrice
  pub tools : Dict String ℕ

pub record BudgetLimits : Type 0 where
  pub run_microunits : Option ℕ
  pub agent_microunits : Option ℕ
  pub day_microunits : Option ℕ

pub record UsageEntry : Type 0 where
  pub entry_id : String
  pub run_id : String
  pub agent_id : String
  pub provider_id : String
  pub model_id : String
  pub usage : ModelUsage
  pub tool_name : Option String
  pub model_cost_microunits : ℕ
  pub tool_cost_microunits : ℕ
  pub total_cost_microunits : ℕ
  pub created_at : ℕ

pub data Scope : Type 0 where
  run_scope agent_scope day_scope : Scope

pub record BudgetDecision : Type 0 where
  -- `status == "partial"`
  pub partial_status : Bool
  pub exceeded_scopes : List Scope
  pub run_total_microunits : ℕ
  pub agent_total_microunits : ℕ
  pub day_total_microunits : ℕ

pub record Ledger : Type 0 where
  pub price_book : PriceBook
  pub limits : BudgetLimits
  pub entries : List UsageEntry

pub data LedgerError : Type 0 where
  price_missing entry_exists : LedgerError

-- `sum(item.total_cost_microunits for item in entries if test(item))`
unfoldable pub total_if : (UsageEntry → Bool) → List UsageEntry → ℕ
total_if test [] = 0
total_if test (item ∷ items) =
    let rest = total_if test items in if test item then item.total_cost_microunits + rest else rest

-- `created_at.date()`
abbrev pub date_of : ℕ → ℕ
date_of instant = instant / 86400000000

abbrev pub of_run : String → UsageEntry → Bool
of_run run_id item = item.run_id == run_id

abbrev pub of_agent : String → String → UsageEntry → Bool
of_agent run_id agent_id item = item.run_id == run_id && item.agent_id == agent_id

abbrev pub of_day : ℕ → UsageEntry → Bool
of_day day item = nat_beq (date_of item.created_at) day

-- `limit is not None and total > limit`
abbrev pub exceeds : Option ℕ → ℕ → Bool
exceeds none total = false
exceeds (some limit) total = ltb limit total

abbrev scope_if : Bool → Scope → List Scope
scope_if test scope = if test then scope ∷ [] else []

-- `_decision`
unfoldable pub decision : BudgetLimits → List UsageEntry → String → String → ℕ → BudgetDecision
unfolding total_if
decision limits entries run_id agent_id day =
    let run_total = total_if (of_run run_id) entries in
    let agent_total = total_if (of_agent run_id agent_id) entries in
    let day_total = total_if (of_day day) entries in
    let exceeded =
      scope_if (exceeds limits.run_microunits run_total) run_scope
      ++ scope_if (exceeds limits.agent_microunits agent_total) agent_scope
      ++ scope_if (exceeds limits.day_microunits day_total) day_scope in
    record {
      partial_status = not (is_empty exceeded);
      exceeded_scopes = exceeded;
      run_total_microunits = run_total;
      agent_total_microunits = agent_total;
      day_total_microunits = day_total;
    }

abbrev pub has_entry : List UsageEntry → String → Bool
has_entry entries entry_id = any_of (λ item. item.entry_id == entry_id) entries

-- `_append`
unfoldable pub append :
    Ledger → UsageEntry → Result LedgerError (UsageEntry × BudgetDecision) × Ledger
unfolding decision
append ledger entry =
    let entries = ledger.entries ++ (entry ∷ []) in
    if has_entry ledger.entries entry.entry_id then (err entry_exists, ledger) else (
      ok (
        entry,
        decision ledger.limits entries entry.run_id entry.agent_id (date_of entry.created_at),
      ),
      record { price_book = ledger.price_book; limits = ledger.limits; entries = entries },
    )

abbrev pub model_entry :
    (entry_id run_id agent_id provider_id model_id : String) → ModelUsage → ℕ → ℕ → UsageEntry
model_entry entry_id run_id agent_id provider_id model_id usage created_at model_cost = record {
  entry_id = entry_id;
  run_id = run_id;
  agent_id = agent_id;
  provider_id = provider_id;
  model_id = model_id;
  usage = usage;
  tool_name = none;
  model_cost_microunits = model_cost;
  tool_cost_microunits = 0;
  total_cost_microunits = model_cost;
  created_at = created_at;
}

-- `usage.model_copy(update={"estimated_cost_microunits": model_cost})`
abbrev with_cost : ModelUsage → ℕ → ModelUsage
with_cost usage cost = record {
  input_tokens = usage.input_tokens;
  output_tokens = usage.output_tokens;
  cached_input_tokens = usage.cached_input_tokens;
  reasoning_tokens = usage.reasoning_tokens;
  estimated_cost_microunits = cost;
}

-- `record_model`, by the configured price.
abbrev pub record_priced :
    Ledger
    → (entry_id run_id agent_id provider_id model_id : String) → ModelUsage
    → ℕ
    → Option ModelPrice
    → Result LedgerError (UsageEntry × BudgetDecision) × Ledger
record_priced ledger entry_id run_id agent_id provider_id model_id usage created_at none =
    (err price_missing, ledger)
record_priced ledger entry_id run_id agent_id provider_id model_id usage created_at (some price) =
    append ledger (
      model_entry entry_id run_id agent_id provider_id model_id
        (with_cost usage (estimate price usage)) created_at (estimate price usage))

unfoldable pub record_model :
    Ledger
    → (entry_id run_id agent_id provider_id model_id : String) → ModelUsage
    → ℕ
    → Result LedgerError (UsageEntry × BudgetDecision) × Ledger
unfolding append estimate
record_model ledger entry_id run_id agent_id provider_id model_id usage created_at =
    record_priced ledger entry_id run_id agent_id provider_id model_id usage created_at
      (Dict.get ledger.price_book.models model_id)

-- `self.price_book.tools.get(tool_name, 0)`
abbrev pub fee_of : Option ℕ → ℕ
fee_of none = 0
fee_of (some fee) = fee

unfoldable pub record_tool :
    Ledger
    → (entry_id run_id agent_id tool_name : String) → ℕ
    → Result LedgerError (UsageEntry × BudgetDecision) × Ledger
unfolding append
record_tool ledger entry_id run_id agent_id tool_name created_at =
    let fee = fee_of (Dict.get ledger.price_book.tools tool_name) in
    append ledger (record {
      entry_id = entry_id;
      run_id = run_id;
      agent_id = agent_id;
      provider_id = "tool_gateway";
      model_id = "none";
      usage = no_usage;
      tool_name = some tool_name;
      model_cost_microunits = 0;
      tool_cost_microunits = fee;
      total_cost_microunits = fee;
      created_at = created_at;
    })
