-- ===== src/Harness/Scheduler/Rounds/Settled.antt =====
-- What `DagScheduler.run` comes to.
use multi_agent_based_intell.Prelude.{
  ◌≤◌, String, ◌≡◌, refl, sym, ap, ◌∙◌, subst, inl, inr, Bool, true, false, List, [], ◌∷◌, Memᴰ,
  map, Result, ok, err, arith, string_eq, mem-contains, is_unique, all_of, any_of, mem-map,
  mem-of-map, mem-cons_cases, Bool-cases,
}
use multi_agent_based_intell.Prelude.Sorting.{sort_by, mem-of-sort_by}
use multi_agent_based_intell.Harness.Scheduler.Graph.{TaskNode, node_ids, remaining_of}
use multi_agent_based_intell.Harness.Scheduler.Nodes.{TaskOutcome, World, SchedulerError}
use multi_agent_based_intell.Harness.Scheduler.Nodes.Verdict.{
  Breaks, interrupts, hangs, IsEnd, ends, breaks, run_node-Course,
}
use multi_agent_based_intell.Harness.Scheduler.Graph.Acyclic.{IsStuck}
use multi_agent_based_intell.Harness.Scheduler.Rounds.{
  Outcomes, is_ready_node, outcome_ids, not_run, by_id, gathered, run_nodes,
}
use multi_agent_based_intell.Harness.Scheduler.Rounds.Progress.{IsNews}

-- Nodes with unique ids, known dependencies and at least one attempt each, and without a cycle: in
-- no set of ids does each one depend on another of the set, unless the set is empty.
pub record IsDag (nodes : List TaskNode) : Type 0 where
  pub unique : is_unique (node_ids nodes) ≡ true
  pub known :
      (n : TaskNode) (d : String) → Memᴰ n nodes → Memᴰ d n.dependency_ids → Memᴰ d (node_ids nodes)
  pub acyclic :
      (stuck : String → Bool) (id : String) → IsStuck stuck (remaining_of nodes) → stuck id ≡ false
  pub attempts : (n : TaskNode) → Memᴰ n nodes → 1 ≤ n.max_attempts

pub unique_node :
    (nodes : List TaskNode) {n m : TaskNode}
    → is_unique (node_ids nodes) ≡ true
    → Memᴰ n nodes
    → Memᴰ m nodes
    → n.task_id ≡ m.task_id
    → n ≡ m
unique_node [] u a b e = elim a [ ]
unique_node (x ∷ xs) u (Memᴰ.head p) (Memᴰ.head q) e = p ∙ sym q
unique_node (x ∷ xs) {n} {m} u (Memᴰ.head p) (Memᴰ.tail b) e =
    absurd (ground (arith, p, e, mem-contains (node_ids xs) (mem-map (λ k. k.task_id) xs b)))
unique_node (x ∷ xs) {n} {m} u (Memᴰ.tail a) (Memᴰ.head q) e =
    absurd (ground (arith, q, e, mem-contains (node_ids xs) (mem-map (λ k. k.task_id) xs a)))
unique_node (x ∷ xs) u (Memᴰ.tail a) (Memᴰ.tail b) e = unique_node xs (ground arith) a b e

pub any_of-mem :
    (p : String → Bool) (xs : List String)
    → any_of p xs ≡ true
    → (x : String) × Memᴰ x xs × (p x ≡ true)
any_of-mem p [] h = absurd (ground arith)
any_of-mem p (x ∷ xs) h = elim (Bool-cases (p x)) [
  | inl here ↦ (x, Memᴰ.head refl, here)
  | inr there ↦ let (y, m, e) = any_of-mem p xs (ground arith) in (y, Memᴰ.tail m, e)
]

-- Some dependency fails the test, if not all pass.
pub not_all-mem :
    (p : String → Bool) (xs : List String)
    → all_of p xs ≡ false
    → (x : String) × Memᴰ x xs × (p x ≡ false)
not_all-mem p [] h = absurd (ground arith)
not_all-mem p (x ∷ xs) h = elim (Bool-cases (p x)) [
  | inr here ↦ (x, Memᴰ.head refl, here)
  | inl there ↦ let (y, m, e) = not_all-mem p xs (ground arith) in (y, Memᴰ.tail m, e)
]

pub any_of-here :
    (p : String → Bool) (xs : List String) {x : String}
    → Memᴰ x xs
    → any_of p xs ≡ false
    → p x ≡ false
any_of-here p [] m h = elim m [ ]
any_of-here p (y ∷ xs) (Memᴰ.head e) h = ground (arith, ap p e)
any_of-here p (y ∷ xs) (Memᴰ.tail m) h = any_of-here p xs m (ground arith)

not_run-IsNews :
    (code : String) (pending : List TaskNode) (outcomes : Outcomes) (n : TaskNode)
    → Memᴰ n pending
    → IsNews pending outcomes (not_run code n)
not_run-IsNews code pending outcomes n m = record {
  node = n;
  listed = m;
  own_id = refl;
  within = omega arith;
  in_order = refl;
}

-- The outcomes that a round gives to blocked or cancelled nodes.
pub cancelled-IsNews :
    (code : String) (pending some_nodes : List TaskNode) (outcomes : Outcomes)
    → ((n : TaskNode) → Memᴰ n some_nodes → Memᴰ n pending)
    → (o : TaskOutcome) → Memᴰ o (map (not_run code) (sort_by by_id some_nodes))
    → IsNews pending outcomes o
cancelled-IsNews code pending some_nodes outcomes inside o m =
    let (n, k, e) = mem-of-map (not_run code) (sort_by by_id some_nodes) m in
    subst (IsNews pending outcomes) e
      (not_run-IsNews code pending outcomes n (inside n (mem-of-sort_by by_id some_nodes k)))

module _ (world : World) (pending : List TaskNode) (outcomes : Outcomes) where
  -- What running nodes gives: an outcome for each, in their order, or the error of one of them.
  pub data NodesEnd (some_nodes : List TaskNode)
      : Result SchedulerError (List TaskOutcome) → Type 0 where
    all_end :
        (os : List TaskOutcome)
        → outcome_ids os ≡ node_ids some_nodes
        → ((o : TaskOutcome) → Memᴰ o os → IsNews pending outcomes o)
        → NodesEnd some_nodes (ok os)
    one_breaks :
        (n : TaskNode)
        → Memᴰ n some_nodes
        → (e : SchedulerError) → Breaks world n e
        → NodesEnd some_nodes (err e)

  gathered-NodesEnd :
      (n : TaskNode) (ns : List TaskNode) (q : Result SchedulerError TaskOutcome)
      (r : Result SchedulerError (List TaskOutcome))
      → Memᴰ n pending
      → is_ready_node outcomes n ≡ true
      → IsEnd world n q
      → NodesEnd ns r
      → NodesEnd (n ∷ ns) (gathered q r)
  gathered-NodesEnd n ns _ _ listed ready (ends o within own) (all_end os ids news) =
      all_end (o ∷ os) (rw (own, ids) refl) λ x m. elim (mem-cons_cases m) [
        | inl same ↦ subst (IsNews pending outcomes) (sym same) (record {
          node = n;
          listed = listed;
          own_id = own;
          within = within;
          in_order = ground arith;
        })
        | inr later ↦ news x later
      ]
  gathered-NodesEnd n ns _ _ listed ready (ends o within own) (one_breaks k m e b) =
      one_breaks k (Memᴰ.tail m) e b
  gathered-NodesEnd n ns _ _ listed ready (breaks _ (interrupts k at)) others =
      one_breaks n (Memᴰ.head refl) _ (interrupts k at)
  gathered-NodesEnd n ns _ _ listed ready (breaks _ (hangs k at)) (all_end os ids news) =
      one_breaks n (Memᴰ.head refl) _ (hangs k at)
  gathered-NodesEnd n ns _ _ listed ready (breaks _ (hangs k at)) (one_breaks j m e b) =
      one_breaks j (Memᴰ.tail m) e b

  pub run_nodes-NodesEnd :
      (some_nodes : List TaskNode)
      → ((n : TaskNode)
          → Memᴰ n some_nodes
          → Memᴰ n pending × (is_ready_node outcomes n ≡ true) × (1 ≤ n.max_attempts))
      → NodesEnd some_nodes (run_nodes world some_nodes)
  unfolding run_nodes
  run_nodes-NodesEnd [] fit = all_end [] refl λ o m. elim m [ ]
  run_nodes-NodesEnd (n ∷ ns) fit =
      let (listed, ready, some_attempt) = fit n (Memᴰ.head refl) in
      gathered-NodesEnd n ns _ _ listed ready (run_node-Course world n some_attempt).1
        (run_nodes-NodesEnd ns (λ k m. fit k (Memᴰ.tail m)))
