-- ===== src/Harness/Scheduler/Graph/Accepted.antt =====
-- What `TaskDAG` accepts is a graph that `DagScheduler.run` can take.
use multi_agent_based_intell.Prelude.{
  ℕ, String, ◌≡◌, true, List, [], ◌∷◌, Memᴰ, ok, ◌>>◌, >>=-eq-ok, arith, ◌≤◌, string_eq, contains,
  contains-mem, all_of, all_of_mem, length, All, All_mem,
}
use multi_agent_based_intell.Harness.Scheduler.Graph.{
  TaskNode, check_node, node_ids, remaining_of, validate_dependencies, validate_acyclic, build_dag,
}
use multi_agent_based_intell.Harness.Scheduler.Graph.Acyclic.{validate_acyclic-IsAcyclic}
use multi_agent_based_intell.Harness.Scheduler.Rounds.Settled.{IsDag}

check_node-attempts : (n : TaskNode) → check_node n ≡ ok tt → 1 ≤ n.max_attempts
unfolding check_node
check_node-attempts n h = ground arith

dependencies-known :
    (ids : List String) (nodes : List TaskNode) (n : TaskNode) (d : String)
    → validate_dependencies ids nodes ≡ ok tt
    → Memᴰ n nodes
    → Memᴰ d n.dependency_ids
    → Memᴰ d ids
unfolding validate_dependencies
dependencies-known ids [] n d h m k = elim m [ ]
dependencies-known ids (x ∷ nodes) n d h (Memᴰ.head e) k =
    let all_known : all_of (contains ids) x.dependency_ids ≡ true = ground arith in
    contains-mem ids d (all_of_mem (contains ids) x.dependency_ids all_known (rw (← e) k))
dependencies-known ids (x ∷ nodes) n d h (Memᴰ.tail m) k =
    dependencies-known ids nodes n d (ground arith) m k

-- Nodes that `TaskNode` and `TaskDAG` accept have unique ids, known dependencies, at least one
-- attempt each, and no cycle: a set of ids each of which depends on another of them is empty.
pub build_dag-IsDag :
    (max_nodes : ℕ) (nodes dag : List TaskNode)
    → All (λ n. check_node n ≡ ok tt) nodes
    → build_dag max_nodes nodes ≡ ok dag
    → (dag ≡ nodes) × IsDag nodes
unfolding build_dag
build_dag-IsDag max_nodes nodes dag checked h =
    let ids = node_ids nodes in
    let checks =
      validate_dependencies ids nodes >> validate_acyclic (length nodes) (remaining_of nodes) in
    let rest : (checks >> ok nodes) ≡ ok dag = ground arith in
    let (_, both, same) = >>=-eq-ok checks (λ _. ok nodes) rest in
    let (_, known, acyclic) =
      >>=-eq-ok (validate_dependencies ids nodes)
        (λ _. validate_acyclic (length nodes) (remaining_of nodes)) both in
    (
      ground arith,
      record {
        unique = ground arith;
        known = λ n d m k. dependencies-known ids nodes n d known m k;
        acyclic = λ stuck id.
            validate_acyclic-IsAcyclic stuck (length nodes) (remaining_of nodes) id acyclic;
        attempts =
            λ n m. check_node-attempts n (All_mem (λ n. check_node n ≡ ok tt) nodes checked m);
      },
    )
