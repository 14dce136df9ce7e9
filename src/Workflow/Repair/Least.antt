-- ===== src/Workflow/Repair/Least.antt =====
-- `_dependency_closure` gives the least closed set around its seeds.
use multi_agent_based_intell.Prelude.{
  ℕ, zero, suc, ◌<◌, String, ◌≡◌, refl, inl, inr, Bool, true, false, not, ◌&&◌, some, List, [], ◌∷◌,
  arith, ◌==◌, eq_iff, ap, string_eq, contains, any_of, all_of, select, Bool-cases, &&-eq_true,
}
use multi_agent_based_intell.Workflow.Repair.{
  task_order, task_dependencies, is_reached, sweep, sweeps, dependency_closure,
}
use multi_agent_based_intell.Workflow.Repair.Closure.{
  Rows, row_closed, missing_count, IsSweep, sweep-IsSweep, any_of-implies,
}

-- A set of tasks that holds the seeds, that holds every task one of whose dependencies it holds,
-- and that is in every such set.
pub record IsClosure (seeds result : List String) : Type 0 where
  pub holds_seeds :
      (t : String)
      → contains task_order t ≡ true
      → contains seeds t ≡ true
      → contains result t ≡ true
  pub closed : all_of (row_closed (contains result)) task_dependencies ≡ true
  pub least :
      (p : String → Bool)
      → all_of (row_closed p) task_dependencies ≡ true
      → ((t : String) → contains seeds t ≡ true → p t ≡ true)
      → (t : String) → contains result t ≡ true
      → p t ≡ true

-- The set in which the loop ends.
record IsFixed (inv last : List String) : Type 0 where
  grows : (t : String) → contains inv t ≡ true → contains last t ≡ true
  unreached : all_of (λ row. not (is_reached last row)) task_dependencies ≡ true
  least :
      (p : String → Bool)
      → all_of (row_closed p) task_dependencies ≡ true
      → ((t : String) → contains inv t ≡ true → p t ≡ true)
      → (t : String) → contains last t ≡ true
      → p t ≡ true

sweeps-IsFixed :
    (fuel : ℕ) (inv : List String)
    → missing_count task_dependencies inv < fuel
    → (last : List String) × (sweeps fuel inv ≡ some last) × IsFixed inv last
unfolding sweeps
sweeps-IsFixed zero inv lt = absurd (omega arith)
sweeps-IsFixed (suc fuel) inv lt =
    let next = sweep task_dependencies (inv, false) in
    let s : IsSweep task_dependencies task_dependencies inv false next =
      sweep-IsSweep task_dependencies task_dependencies inv false (λ row m. m) in
    elim (Bool-cases next.1) [
      | inl changed ↦
          let (last, e, f) = sweeps-IsFixed fuel next.0 (omega (arith, s.progress changed refl)) in
          rw changed (
            last,
            e,
            record {
              grows = λ t h. f.grows t (s.grows t h);
              unreached = f.unreached;
              least = λ p c g. f.least p c (s.least p c g);
            },
          )
      | inr steady ↦
          let (_, same, unreached) = s.stable steady in
          rw steady (
            next.0,
            refl,
            record {
              grows = s.grows;
              unreached = rw same unreached;
              least = λ p c g. s.least p c g;
            },
          )
    ]

contains-select :
    (p : String → Bool) (xs : List String) (t : String)
    → contains (select p xs) t ≡ (contains xs t && p t)
contains-select p [] t = refl
contains-select p (x ∷ xs) t = elim (Bool-cases (x == t)) [
  | inl same ↦
      ground (arith, contains-select p xs t, (eq_iff x t).0 same, ap p ((eq_iff x t).0 same))
  | inr other ↦ ground (arith, contains-select p xs t)
]

-- Leaving out what is not among the tasks keeps the rows closed.
module _ (last order : List String) where
  kept-mem :
      (t : String) → contains (select (contains last) order) t ≡ true → contains last t ≡ true
  kept-mem t h = ground (arith, contains-select (contains last) order t)

  mem-kept :
      (t : String)
      → contains order t ≡ true
      → contains last t ≡ true
      → contains (select (contains last) order) t ≡ true
  mem-kept t o h = ground (arith, contains-select (contains last) order t)

  row-closed :
      (row : String × List String)
      → not (is_reached last row) ≡ true
      → contains order row.0 ≡ true
      → row_closed (contains (select (contains last) order)) row ≡ true
  row-closed row u o = elim (Bool-cases (any_of (contains (select (contains last) order)) row.1)) [
    | inr free ↦ rw free refl
    | inl reached ↦
        let wide =
          any_of-implies (contains (select (contains last) order)) (contains last) row.1 kept-mem
            reached in
        let here : contains last row.0 ≡ true = ground arith in
        rw (reached, mem-kept row.0 o here) refl
  ]

  rows-closed :
      (rows : Rows)
      → all_of (λ row. not (is_reached last row)) rows ≡ true
      → all_of (λ row. contains order row.0) rows ≡ true
      → all_of (row_closed (contains (select (contains last) order))) rows ≡ true
  rows-closed [] u o = refl
  rows-closed (row ∷ rows) u o =
      let (here, later) =
        &&-eq_true (not (is_reached last row)) (all_of (λ r. not (is_reached last r)) rows) u in
      let (known, all_known) =
        &&-eq_true (contains order row.0) (all_of (λ r. contains order r.0) rows) o in
      rw (row-closed row here known, rows-closed rows later all_known) refl

few_missing : (inv : List String) → missing_count task_dependencies inv < 6
few_missing inv = ground arith

-- The repair of any seeds invalidates the least set of tasks that holds the seeds and, with a task,
-- every task that depends on it: the loop ends, nothing downstream is left out, and nothing else
-- is repeated.
pub dependency_closure-IsClosure :
    (seeds : List String)
    → (result : List String) × (dependency_closure seeds ≡ some result) × IsClosure seeds result
unfolding dependency_closure
dependency_closure-IsClosure seeds =
    let (last, e, f) = sweeps-IsFixed 6 seeds (few_missing seeds) in
    rw e (
      select (contains last) task_order,
      refl,
      record {
        holds_seeds = λ t o h. mem-kept last task_order t o (f.grows t h);
        closed = rows-closed last task_order task_dependencies f.unreached refl;
        least = λ p c g t h. f.least p c g t (kept-mem last task_order t h);
      },
    )
