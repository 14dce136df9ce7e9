-- ===== src/Harness/Scheduler/Tests.antt =====
-- Runs of the scheduler on small graphs, and the theorems at such graphs.
use multi_agent_based_intell.Prelude.{
  ℕ, String, ◌≡◌, refl, Bool, true, false, none, some, List, [], ◌∷◌, Memᴰ, ok, err, arith,
  string_eq, All, ap, subst, ◌==◌, if◌then◌else◌,
}
use multi_agent_based_intell.Domain.Messaging.{failed}
use multi_agent_based_intell.Harness.Scheduler.Graph.{
  TaskNode, cycle, check_node, remaining_of, validate_dependencies, validate_acyclic, build_dag,
}
use multi_agent_based_intell.Harness.Scheduler.Graph.Acyclic.{IsStuck}
use multi_agent_based_intell.Harness.Scheduler.Graph.Cycle.{IsClosedGraph, validate_acyclic-cycle}
use multi_agent_based_intell.Harness.Scheduler.Graph.Accepted.{build_dag-IsDag}
use multi_agent_based_intell.Harness.Scheduler.Nodes.{
  TaskOutcome, World, retryable, operation_cancelled, deadlock, cancelled_operation, outcome,
  run_attempt, run_attempts, run_node,
}
use multi_agent_based_intell.Harness.Scheduler.Nodes.Verdict.{Course, IsEnd, run_node-Course}
use multi_agent_based_intell.Harness.Scheduler.Rounds.{run, run_rounds, run_nodes, put_outcomes}
use multi_agent_based_intell.Prelude.Sorting.{sort_by, insert_sorted}
use multi_agent_based_intell.Harness.Scheduler.Rounds.Settled.{IsDag}
use multi_agent_based_intell.Harness.Scheduler.Rounds.Ends.{Settled, run-Settled}
use multi_agent_based_intell.Harness.Scheduler.Rounds.Chain.{task_node, chain, failed_chain_raises}

abbrev tasks : List TaskNode
tasks = chain "a" "b" "c" 1000000 2

-- Every attempt ends in a retryable error.
abbrev failing : World
failing = record {
  token_cancelled = λ id n. false;
  wait =
      λ id n. record { operation = some (retryable "busy"); cancellation = false; yields = true };
}

abbrev never : ℕ → Bool
never k = false

tasks_accepted : build_dag 100 tasks ≡ ok tasks
unfolding build_dag validate_dependencies validate_acyclic
tasks_accepted = refl

tasks_checked : All (λ n. check_node n ≡ ok tt) tasks
unfolding check_node
tasks_checked = (refl, (refl, (refl, tt)))

build_dag-IsDag_example : (tasks ≡ tasks) × IsDag tasks
build_dag-IsDag_example = build_dag-IsDag 100 tasks tasks tasks_checked tasks_accepted

tasks_acyclic : validate_acyclic 3 (remaining_of tasks) ≡ ok tt
unfolding validate_acyclic
tasks_acyclic = refl

nobody-IsStuck : IsStuck (λ id. false) (remaining_of tasks)
nobody-IsStuck = record { inside = λ id h. absurd (cc); blocked = λ id ds m h. absurd (cc) }

abbrev loop : List (String × List String)
loop = ("a", "b" ∷ []) ∷ ("b", "a" ∷ []) ∷ []

loop_refused : validate_acyclic 2 loop ≡ err cycle
unfolding validate_acyclic
loop_refused = refl

only_one : (x : String) {d : String} → Memᴰ d (x ∷ []) → d ≡ x
only_one x (Memᴰ.head e) = e
only_one x (Memᴰ.tail m) = elim m [ ]

loop-known :
    (id : String) (ds : List String) (d : String)
    → Memᴰ (id, ds) loop
    → Memᴰ d ds
    → (es : List String) × Memᴰ (d, es) loop
loop-known id ds d (Memᴰ.head e) m = (
  "a" ∷ [],
  Memᴰ.tail (
      Memᴰ.head
        (ap (λ z. (z, "a" ∷ [])) (only_one "b" (subst (λ xs. Memᴰ d xs) (ap (λ q. q.1) e) m)))),
)
loop-known id ds d (Memᴰ.tail (Memᴰ.head e)) m = (
  "b" ∷ [],
  Memᴰ.head (ap (λ z. (z, "b" ∷ [])) (only_one "a" (subst (λ xs. Memᴰ d xs) (ap (λ q. q.1) e) m))),
)
loop-known id ds d (Memᴰ.tail (Memᴰ.tail n)) m = elim n [ ]

loop-IsClosedGraph : IsClosedGraph loop
loop-IsClosedGraph = record { known = loop-known }

validate_acyclic-cycle_example :
    (cycle ≡ cycle)
    × ((stuck : String → Bool) × (id : String) × (stuck id ≡ true) × IsStuck stuck loop)
validate_acyclic-cycle_example =
    validate_acyclic-cycle 2 loop cycle loop-IsClosedGraph (omega arith) loop_refused

run_node-Course_example :
    Course failing (task_node "a" [] 1000000 2) 1 (run_node failing (task_node "a" [] 1000000 2))
    × IsEnd failing (task_node "a" [] 1000000 2) (run_node failing (task_node "a" [] 1000000 2))
run_node-Course_example = run_node-Course failing (task_node "a" [] 1000000 2) (omega arith)

-- Every operation ends in a cancellation of its own, or does not end at all.
abbrev interrupting : World
interrupting = record {
  token_cancelled = λ id n. false;
  wait = λ id n. record {
    operation = if id == "a" then none else some operation_cancelled;
    cancellation = false;
    yields = false;
  };
}

interruption_raised :
    run interrupting never (task_node "a" [] 1000000 2 ∷ task_node "b" [] 1000000 2 ∷ [])
    ≡ err cancelled_operation
unfolding run run_rounds run_nodes run_node run_attempts run_attempt sort_by insert_sorted
    put_outcomes
interruption_raised = refl

run-Settled_example : Settled failing tasks (run failing never tasks)
run-Settled_example = run-Settled failing tasks build_dag-IsDag_example.1 never

abbrev first_failed : TaskOutcome
first_failed = outcome (task_node "a" [] 1000000 2) failed 2 none (some "busy")

first_fails : run_node failing (task_node "a" [] 1000000 2) ≡ ok first_failed
unfolding run_node run_attempts run_attempt
first_fails = refl

failed_chain_raises_example : run failing never tasks ≡ err deadlock
failed_chain_raises_example =
    failed_chain_raises failing never "a" "b" "c" 1000000 2 first_failed refl refl refl first_fails
      refl refl refl refl
