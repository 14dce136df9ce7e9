-- ===== src/Models/Ledger/Budgets.antt =====
-- What the ledger promises of prices, entries and budgets.
use multi_agent_based_intell.Prelude.{
  ℕ, ◌+◌, ◌*◌, ◌/◌, ◌≤◌, ◌<◌, String, ◌≡◌, refl, inl, inr, Bool, true, false, ◌||◌, List, [], ◌∷◌,
  ◌++◌, map, Result, ok, err, arith, eq_iff, ◌==◌, string_eq, contains, is_unique, Bool-cases,
  if◌then◌else◌,
}
use multi_agent_based_intell.Harness.ModelGateway.{ModelUsage}
use multi_agent_based_intell.Models.Ledger.{
  ModelPrice, numerator, estimate, UsageEntry, BudgetDecision, Ledger, LedgerError, total_if,
  date_of, of_run, of_agent, of_day, exceeds, decision, has_entry, append,
}

ceiling :
    (n : ℕ)
    → (n ≤ ((n + 999999) / 1000000) * 1000000) × (((n + 999999) / 1000000) * 1000000 < n + 1000000)
ceiling n = (omega arith, omega arith)

-- The estimated cost is the price of the tokens rounded up to a microunit: it covers the price, and
-- exceeds it by less than one microunit.
pub estimate_bounds :
    (price : ModelPrice) (usage : ModelUsage)
    → (numerator price usage ≤ estimate price usage * 1000000)
      × (estimate price usage * 1000000 < numerator price usage + 1000000)
unfolding estimate
estimate_bounds price usage = ceiling (numerator price usage)

-- What one entry adds to a total.
abbrev share : (UsageEntry → Bool) → UsageEntry → ℕ
share test entry = if test entry then entry.total_cost_microunits else 0

total_if-append :
    (test : UsageEntry → Bool) (entries : List UsageEntry) (entry : UsageEntry)
    → total_if test (entries ++ (entry ∷ [])) ≡ total_if test entries + share test entry
unfolding total_if
total_if-append test [] entry = ground arith
total_if-append test (e ∷ es) entry = ground (arith, total_if-append test es entry)

agent-le-run :
    (run_id agent_id : String) (entries : List UsageEntry)
    → total_if (of_agent run_id agent_id) entries ≤ total_if (of_run run_id) entries
unfolding total_if
agent-le-run run_id agent_id [] = omega arith
agent-le-run run_id agent_id (e ∷ es) = ground (arith, agent-le-run run_id agent_id es)

-- The decision that follows an accepted entry.
pub record IsDecision (before : Ledger) (entry : UsageEntry) (d : BudgetDecision) : Type 0 where
  pub run_total :
      d.run_total_microunits
      ≡ total_if (of_run entry.run_id) before.entries + entry.total_cost_microunits
  pub agent_total :
      d.agent_total_microunits
      ≡ total_if (of_agent entry.run_id entry.agent_id) before.entries + entry.total_cost_microunits
  pub day_total :
      d.day_total_microunits
      ≡ total_if (of_day (date_of entry.created_at)) before.entries + entry.total_cost_microunits
  pub status : d.partial_status ≡ (
      exceeds before.limits.run_microunits d.run_total_microunits
      || exceeds before.limits.agent_microunits d.agent_total_microunits
      || exceeds before.limits.day_microunits d.day_total_microunits)
  pub ordered : d.agent_total_microunits ≤ d.run_total_microunits

decision-IsDecision :
    (ledger : Ledger) (entry : UsageEntry)
    → IsDecision ledger entry (
        decision ledger.limits
          (ledger.entries ++ (entry ∷ []))
          entry.run_id
          entry.agent_id
          (date_of entry.created_at))
unfolding decision
decision-IsDecision ledger entry = record {
  run_total = ground (
    arith,
    total_if-append (of_run entry.run_id) ledger.entries entry,
    eq_iff entry.run_id entry.run_id,
  );
  agent_total = ground (
    arith,
    total_if-append (of_agent entry.run_id entry.agent_id) ledger.entries entry,
    eq_iff entry.run_id entry.run_id,
    eq_iff entry.agent_id entry.agent_id,
  );
  day_total =
      ground (arith, total_if-append (of_day (date_of entry.created_at)) ledger.entries entry);
  status = ground arith;
  ordered = agent-le-run entry.run_id entry.agent_id (ledger.entries ++ (entry ∷ []));
}

-- What an append does: it raises and keeps the ledger, or adds the entry at the end and decides.
pub data Appended (before : Ledger) (entry : UsageEntry)
    : Result LedgerError (UsageEntry × BudgetDecision) × Ledger → Type 0 where
  refused :
      (error : LedgerError)
      → has_entry before.entries entry.entry_id ≡ true
      → Appended before entry (err error, before)
  accepted :
      (d : BudgetDecision) (after : Ledger)
      → has_entry before.entries entry.entry_id ≡ false
      → after.entries ≡ before.entries ++ (entry ∷ [])
      → IsDecision before entry d
      → Appended before entry (ok (entry, d), after)

-- An entry is refused exactly when its id is taken, and then nothing changes. An accepted entry is
-- added at the end; the decision's totals are those of the entries before plus its cost, each for
-- the entry's run, its agent in the run and its day, and the status is partial exactly when one of
-- them is over its limit.
pub append-Appended :
    (ledger : Ledger) (entry : UsageEntry) → Appended ledger entry (append ledger entry)
unfolding append
append-Appended ledger entry = elim (Bool-cases (has_entry ledger.entries entry.entry_id)) [
  | inl taken ↦ rw taken (refused _ taken)
  | inr free ↦ rw free (accepted _ _ free refl (decision-IsDecision ledger entry))
]

abbrev pub entry_ids : Ledger → List String
entry_ids ledger = map (λ item. item.entry_id) ledger.entries

unfoldable pub append_all : Ledger → List UsageEntry → Ledger
unfolding append
append_all ledger [] = ledger
append_all ledger (entry ∷ entries) = append_all (append ledger entry).1 entries

has_entry-ids :
    (entries : List UsageEntry) (id : String)
    → has_entry entries id ≡ contains (map (λ item. item.entry_id) entries) id
has_entry-ids [] id = refl
has_entry-ids (e ∷ es) id = ground (arith, has_entry-ids es id)

is_unique-append :
    (entries : List UsageEntry) (entry : UsageEntry)
    → is_unique (map (λ item. item.entry_id) entries) ≡ true
    → has_entry entries entry.entry_id ≡ false
    → is_unique (map (λ item. item.entry_id) (entries ++ (entry ∷ []))) ≡ true
is_unique-append [] entry u h = refl
is_unique-append (e ∷ es) entry u h = ground (
  arith,
  is_unique-append es entry,
  has_entry-ids es e.entry_id,
  has_entry-ids (es ++ (entry ∷ [])) e.entry_id,
  has_entry-append es,
  eq_iff entry.entry_id e.entry_id,
  eq_iff e.entry_id entry.entry_id,
)
  where
    has_entry-append :
        (xs : List UsageEntry)
        → has_entry (xs ++ (entry ∷ [])) e.entry_id
          ≡ (has_entry xs e.entry_id || entry.entry_id == e.entry_id)
    has_entry-append [] = ground arith
    has_entry-append (x ∷ xs) = ground (arith, has_entry-append xs)

append_unique :
    (ledger : Ledger) (entry : UsageEntry)
    → is_unique (entry_ids ledger) ≡ true
    → is_unique (entry_ids (append ledger entry).1) ≡ true
unfolding append
append_unique ledger entry u = elim (Bool-cases (has_entry ledger.entries entry.entry_id)) [
  | inl taken ↦ rw taken u
  | inr free ↦ rw free (is_unique-append ledger.entries entry u free)
]

-- Entry ids stay distinct through any appends, so no usage is counted twice.
pub append_all_unique :
    (ledger : Ledger) (entries : List UsageEntry)
    → is_unique (entry_ids ledger) ≡ true
    → is_unique (entry_ids (append_all ledger entries)) ≡ true
unfolding append_all
append_all_unique ledger [] u = u
append_all_unique ledger (entry ∷ entries) u =
    append_all_unique (append ledger entry).1 entries (append_unique ledger entry u)
