-- ===== src/Harness/Scheduler/Rounds/Chain.antt =====
-- A failure two steps up: the cancellation of a blocked node does not reach the nodes that depend
-- on it within the same round, and the round then finds nothing to run.
use multi_agent_based_intell.Prelude.{
  ℕ, suc, String, ◌≡◌, refl, ◌∙◌, Bool, true, false, List, [], ◌∷◌, ok, err, arith, eq_iff, ◌==◌,
  string_eq,
}
use multi_agent_based_intell.Prelude.Dict
use multi_agent_based_intell.Prelude.Sorting.{sort_by, insert_sorted}
use multi_agent_based_intell.Domain.Messaging.{is_succeeded}
use multi_agent_based_intell.Harness.Scheduler.Graph.{TaskNode}
use multi_agent_based_intell.Harness.Scheduler.Nodes.{TaskOutcome, World, deadlock, run_node}
use multi_agent_based_intell.Harness.Scheduler.Rounds.{put_outcomes, run_nodes, run_rounds, run}

abbrev pub task_node : String → List String → ℕ → ℕ → TaskNode
task_node task_id dependency_ids timeout max_attempts = record {
  task_id = task_id;
  dependency_ids = dependency_ids;
  timeout = timeout;
  max_attempts = max_attempts;
}

-- Task `b` depends on `a`, and `c` on `b`.
abbrev pub chain : String → String → String → ℕ → ℕ → List TaskNode
chain a b c timeout max_attempts =
    task_node a [] timeout max_attempts
    ∷ task_node b (a ∷ []) timeout max_attempts
    ∷ task_node c (b ∷ []) timeout max_attempts
    ∷ []

module _ (world : World) (token : ℕ → Bool) (a b c : String) (timeout max_attempts : ℕ)
    (o : TaskOutcome) (ab : (a == b) ≡ false) (ac : (a == c) ≡ false) (bc : (b == c) ≡ false) where
  same_id : (x : String) → (x == x) ≡ true
  same_id x = ground (arith, eq_iff x x)

  first_round :
      (fuel : ℕ)
      → run_node world (task_node a [] timeout max_attempts) ≡ ok o
      → o.task_id ≡ a
      → token 0 ≡ false
      → run_rounds world token (suc fuel) 0 (chain a b c timeout max_attempts) []
        ≡ run_rounds world token fuel 1
            (task_node b (a ∷ []) timeout max_attempts
              ∷ task_node c (b ∷ []) timeout max_attempts
              ∷ [])
            ((a, o) ∷ [])
  unfolding run_rounds run_nodes put_outcomes sort_by insert_sorted Dict.get Dict.put
  first_round fuel e own going = rw (going, e, own, same_id a, ab, ac) refl

  second_round :
      (fuel : ℕ)
      → is_succeeded o.state ≡ false
      → token 1 ≡ false
      → run_rounds world token
          (suc fuel)
          1
          (task_node b (a ∷ []) timeout max_attempts
            ∷ task_node c (b ∷ []) timeout max_attempts
            ∷ [])
          ((a, o) ∷ [])
        ≡ err deadlock
  unfolding run_rounds run_nodes put_outcomes sort_by insert_sorted Dict.get Dict.put
  second_round fuel failure going =
      rw (going, same_id a, failure, ab, bc, same_id b, ab) (ground (arith, ab, same_id b))

  -- When the first of three tasks in a row comes to any end but success, and nobody cancels, the
  -- run raises the deadlock error and returns no outcomes: the second task is cancelled, and the
  -- third one, which it blocks, is then neither blocked nor ready in that round.
  pub failed_chain_raises :
      run_node world (task_node a [] timeout max_attempts) ≡ ok o
      → o.task_id ≡ a
      → is_succeeded o.state ≡ false
      → token 0 ≡ false
      → token 1 ≡ false
      → run world token (chain a b c timeout max_attempts) ≡ err deadlock
  unfolding run
  failed_chain_raises e own failure going still =
      first_round 3 e own going ∙ second_round 2 failure still
