-- ===== src/Harness/Scheduler/Rounds/Stalls.antt =====
-- When a round of `DagScheduler.run` finds no node to run.
use multi_agent_based_intell.Prelude.{
  String, ◌≡◌, sym, ap, ◌∙◌, subst, inl, inr, true, false, not, List, Memᴰ, arith, string_eq,
  contains, contains-mem, mem-contains, select, mem-select, mem-of-select, mem-map, mem-of-map,
  Bool-cases,
}
use multi_agent_based_intell.Prelude.Dict
use multi_agent_based_intell.Prelude.Dict.{Dict}
use multi_agent_based_intell.Prelude.Sorting.{sort_by, mem-of-sort_by, mem-sort_by}
use multi_agent_based_intell.Harness.Scheduler.Graph.{TaskNode, node_ids, remaining_of}
use multi_agent_based_intell.Harness.Scheduler.Graph.Acyclic.{IsStuck}
use multi_agent_based_intell.Harness.Scheduler.Rounds.{
  Outcomes, dependency_succeeded, dependency_failed, is_ready_node, is_blocked_node, put_outcomes,
  outcome_ids, drop_done, not_run, by_id, cancel_blocked,
}
use multi_agent_based_intell.Harness.Scheduler.Rounds.Progress.{Progress, put_other}
use multi_agent_based_intell.Harness.Scheduler.Rounds.Settled.{
  IsDag, unique_node, any_of-mem, not_all-mem, any_of-here,
}

-- In an accepted graph some pending node is ready or blocked.
module _ (nodes pending : List TaskNode) (outcomes : Outcomes) (dag : IsDag nodes)
    (p : Progress nodes pending outcomes)
    (not_ready : (n : TaskNode) → Memᴰ n pending → is_ready_node outcomes n ≡ false)
    (not_blocked : (n : TaskNode) → Memᴰ n pending → is_blocked_node outcomes n ≡ false) where
  -- A pending node waits for another one.
  waits :
      (n : TaskNode)
      → Memᴰ n pending
      → (d : String) × Memᴰ d n.dependency_ids × (contains (node_ids pending) d ≡ true)
  waits n m =
      let (d, l, missing) =
        not_all-mem (dependency_succeeded outcomes) n.dependency_ids (not_ready n m) in
      let going = any_of-here (dependency_failed outcomes) n.dependency_ids l (not_blocked n m) in
      let (e, k, own) = mem-of-map (λ x. x.task_id) nodes (dag.known n d (p.known n m) l) in
      let none_yet : Dict.has outcomes e.task_id ≡ false = ground (arith, own) in
      let there = mem-map (λ x. x.task_id) pending (p.cover e k none_yet) in
      (d, l, ground (arith, own, mem-contains (node_ids pending) there))

  pending-IsStuck : IsStuck (contains (node_ids pending)) (remaining_of nodes)
  pending-IsStuck = record {
    inside = λ id h.
        let (n, m, own) =
          mem-of-map (λ x. x.task_id) pending (contains-mem (node_ids pending) id h) in
        (
          n.dependency_ids,
          subst (λ i. Memᴰ (i, n.dependency_ids) (remaining_of nodes)) own
              (mem-map (λ x. (x.task_id, x.dependency_ids)) nodes (p.known n m)),
        );
    blocked = λ id ds m h.
        let (n, k, own) =
          mem-of-map (λ x. x.task_id) pending (contains-mem (node_ids pending) id h) in
        let (x, l, e) = mem-of-map (λ x. (x.task_id, x.dependency_ids)) nodes m in
        let same = unique_node nodes dag.unique (p.known n k) l (own ∙ sym (ap (λ q. q.0) e)) in
        let (d, j, t) = waits n k in
        (d, subst (λ xs. Memᴰ d xs) (ap (λ y. y.dependency_ids) same ∙ ap (λ q. q.1) e) j, t);
  }

  pub none_pending : (n : TaskNode) → Memᴰ n pending → false ≡ true
  none_pending n m =
      let free = dag.acyclic (contains (node_ids pending)) n.task_id pending-IsStuck in
      ground (arith, mem-contains (node_ids pending) (mem-map (λ x. x.task_id) pending m))

-- A node, one of its dependencies, and a dependency of that one.
pub record HasGrandchild (nodes : List TaskNode) : Type 0 where
  pub node : TaskNode
  pub parent : TaskNode
  pub grandparent_id : String
  pub node_listed : Memᴰ node nodes
  pub parent_listed : Memᴰ parent nodes
  pub parent_named : Memᴰ parent.task_id node.dependency_ids
  pub grandparent_named : Memᴰ grandparent_id parent.dependency_ids

blocked_ids :
    (pending : List TaskNode) (outcomes : Outcomes) (id : String)
    → contains (outcome_ids (cancel_blocked pending outcomes)) id ≡ true
    → (m : TaskNode) × Memᴰ m pending × (m.task_id ≡ id) × (is_blocked_node outcomes m ≡ true)
blocked_ids pending outcomes id h =
    let blocked = select (is_blocked_node outcomes) pending in
    let (o, k, own) =
      mem-of-map (λ x. x.task_id) (cancel_blocked pending outcomes)
        (contains-mem (outcome_ids (cancel_blocked pending outcomes)) id h) in
    let (m, l, e) = mem-of-map (not_run "dependency_failed") (sort_by by_id blocked) k in
    let (j, b) =
      mem-of-select (is_blocked_node outcomes) pending (mem-of-sort_by by_id blocked l) in
    (m, j, ap (λ x. x.task_id) e ∙ own, b)

ids_blocked :
    (pending : List TaskNode) (outcomes : Outcomes) (m : TaskNode)
    → Memᴰ m pending
    → is_blocked_node outcomes m ≡ true
    → contains (outcome_ids (cancel_blocked pending outcomes)) m.task_id ≡ true
ids_blocked pending outcomes m j b =
    let blocked = select (is_blocked_node outcomes) pending in
    mem-contains (outcome_ids (cancel_blocked pending outcomes)) (
      mem-map (λ x. x.task_id) (cancel_blocked pending outcomes)
        (mem-map (not_run "dependency_failed") (sort_by by_id blocked)
          (mem-sort_by by_id blocked (mem-select (is_blocked_node outcomes) pending j b))))

-- A node that only the cancellations of its own round block has a grandparent.
module _ (nodes pending : List TaskNode) (outcomes : Outcomes)
    (p : Progress nodes pending outcomes) where
  pub newly_blocked :
      (n : TaskNode)
      → Memᴰ n (drop_done (cancel_blocked pending outcomes) pending)
      → is_blocked_node (put_outcomes outcomes (cancel_blocked pending outcomes)) n ≡ true
      → HasGrandchild nodes
  newly_blocked n m b =
      let os = cancel_blocked pending outcomes in
      let (k, stays) = mem-of-select (λ x. not (contains (outcome_ids os) x.task_id)) pending m in
      let (d, l, f) =
        any_of-mem (dependency_failed (put_outcomes outcomes os)) n.dependency_ids b in
      let free : is_blocked_node outcomes n ≡ false =
        (elim (Bool-cases (is_blocked_node outcomes n)) [
          | inr free ↦ free
          | inl caught ↦ absurd (ground (arith, ids_blocked pending outcomes n k caught))
        ]) in
      let old = any_of-here (dependency_failed outcomes) n.dependency_ids l free in
      elim (Bool-cases (contains (outcome_ids os) d)) [
        | inr untouched ↦ absurd (ground (arith, put_other os outcomes d untouched))
        | inl new ↦
            let (parent, j, own, c) = blocked_ids pending outcomes d new in
            let (e, i, g) = any_of-mem (dependency_failed outcomes) parent.dependency_ids c in
            record {
              node = n;
              parent = parent;
              grandparent_id = e;
              node_listed = p.known n k;
              parent_listed = p.known parent j;
              parent_named = subst (λ x. Memᴰ x n.dependency_ids) (sym own) l;
              grandparent_named = i;
            }
      ]
