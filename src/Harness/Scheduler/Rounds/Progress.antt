-- ===== src/Harness/Scheduler/Rounds/Progress.antt =====
-- What a round of `DagScheduler.run` keeps.
use multi_agent_based_intell.Prelude.{
  ◌≤◌, String, ◌≡◌, refl, sym, ◌∙◌, subst, ◌⊎◌, inl, inr, true, false, not, ◌||◌, some, List, [],
  ◌∷◌, Memᴰ, arith, eq_iff, ◌==◌, string_eq, contains, contains-mem, all_of, mem-select,
  mem-of-select, mem-of-map, Bool-cases, &&-eq_true,
}
use multi_agent_based_intell.Prelude.Dict
use multi_agent_based_intell.Prelude.Dict.{Dict, get-put}
use multi_agent_based_intell.Domain.Messaging.{is_succeeded}
use multi_agent_based_intell.Harness.Scheduler.Graph.{TaskNode}
use multi_agent_based_intell.Harness.Scheduler.Nodes.{TaskOutcome}
use multi_agent_based_intell.Harness.Scheduler.Rounds.{
  Outcomes, dependency_succeeded, is_ready_node, put_outcomes, outcome_ids, drop_done,
}

-- The last of the outcomes for `id`, or what the table had.
pub put_other :
    (os : List TaskOutcome) (d : Outcomes) (id : String)
    → contains (outcome_ids os) id ≡ false
    → Dict.get (put_outcomes d os) id ≡ Dict.get d id
unfolding put_outcomes
put_other [] d id h = refl
put_other (o ∷ os) d id h =
    ground (arith, put_other os (Dict.put d o.task_id o) id, get-put d o.task_id id o)

pub has-put_outcomes :
    (os : List TaskOutcome) (d : Outcomes) (id : String)
    → Dict.has (put_outcomes d os) id ≡ (contains (outcome_ids os) id || Dict.has d id)
unfolding put_outcomes
has-put_outcomes [] d id = refl
has-put_outcomes (o ∷ os) d id =
    ground (arith, has-put_outcomes os (Dict.put d o.task_id o) id, get-put d o.task_id id o)

put_outcomes-cases :
    (os : List TaskOutcome) (d : Outcomes) (id : String) (o : TaskOutcome)
    → Dict.get (put_outcomes d os) id ≡ some o
    → (Memᴰ o os × (o.task_id ≡ id)) ⊎ (Dict.get d id ≡ some o)
unfolding put_outcomes
put_outcomes-cases [] d id o e = inr e
put_outcomes-cases (x ∷ os) d id o e =
    elim (put_outcomes-cases os (Dict.put d x.task_id x) id o e) [
      | inl found ↦ inl (Memᴰ.tail found.0, found.1)
      | inr old ↦ elim (Bool-cases (x.task_id == id)) [
        | inl same ↦
            let this : x ≡ o = ground (arith, get-put d x.task_id id x) in
            inl (Memᴰ.head (sym this), ground (arith, this, eq_iff x.task_id id))
        | inr other ↦ inr (ground (arith, get-put d x.task_id id x))
      ]
    ]

-- What `outcomes` may hold for `id`: an outcome of its node, within the node's attempts, and no
-- success before that of all the node's dependencies.
pub record IsOutcome (nodes : List TaskNode) (outcomes : Outcomes) (id : String) (o : TaskOutcome)
    : Type 0 where
  pub node : TaskNode
  pub listed : Memᴰ node nodes
  pub node_id : node.task_id ≡ id
  pub own_id : o.task_id ≡ id
  pub within : o.attempts ≤ node.max_attempts
  pub in_order : (not (is_succeeded o.state) || is_ready_node outcomes node) ≡ true

-- The nodes with no outcome are the pending ones.
pub record Progress (nodes pending : List TaskNode) (outcomes : Outcomes) : Type 0 where
  pub known : (n : TaskNode) → Memᴰ n pending → Memᴰ n nodes
  pub cover : (n : TaskNode) → Memᴰ n nodes → Dict.has outcomes n.task_id ≡ false → Memᴰ n pending
  pub apart : (n : TaskNode) → Memᴰ n pending → Dict.has outcomes n.task_id ≡ false
  pub sound :
      (id : String) (o : TaskOutcome)
      → Dict.get outcomes id ≡ some o
      → IsOutcome nodes outcomes id o

-- An outcome that a round may add.
pub record IsNews (pending : List TaskNode) (outcomes : Outcomes) (o : TaskOutcome) : Type 0 where
  pub node : TaskNode
  pub listed : Memᴰ node pending
  pub own_id : o.task_id ≡ node.task_id
  pub within : o.attempts ≤ node.max_attempts
  pub in_order : (not (is_succeeded o.state) || is_ready_node outcomes node) ≡ true

module _ {nodes pending : List TaskNode} {outcomes : Outcomes} (p : Progress nodes pending outcomes)
    (os : List TaskOutcome) (news : (o : TaskOutcome) → Memᴰ o os → IsNews pending outcomes o) where
  pub fresh_ids : (id : String) → contains (outcome_ids os) id ≡ true → Dict.has outcomes id ≡ false
  fresh_ids id h =
      let (o, m, own) = mem-of-map (λ o. o.task_id) os (contains-mem (outcome_ids os) id h) in
      let n = news o m in
      subst (λ i. Dict.has outcomes i ≡ false) (sym n.own_id ∙ own) (p.apart n.node n.listed)

  succeeded-kept :
      (d : String)
      → dependency_succeeded outcomes d ≡ true
      → dependency_succeeded (put_outcomes outcomes os) d ≡ true
  succeeded-kept d h = elim (Bool-cases (contains (outcome_ids os) d)) [
    | inl new ↦ absurd (ground (arith, fresh_ids d new))
    | inr old ↦ ground (arith, put_other os outcomes d old)
  ]

  ready-kept :
      (ds : List String)
      → all_of (dependency_succeeded outcomes) ds ≡ true
      → all_of (dependency_succeeded (put_outcomes outcomes os)) ds ≡ true
  ready-kept [] h = refl
  ready-kept (d ∷ ds) h =
      let (first, rest) =
        &&-eq_true (dependency_succeeded outcomes d) (all_of (dependency_succeeded outcomes) ds)
          h in
      rw (succeeded-kept d first, ready-kept ds rest) refl

  in_order-kept :
      (n : TaskNode) (o : TaskOutcome)
      → (not (is_succeeded o.state) || is_ready_node outcomes n) ≡ true
      → (not (is_succeeded o.state) || is_ready_node (put_outcomes outcomes os) n) ≡ true
  in_order-kept n o h = elim (Bool-cases (is_succeeded o.state)) [
    | inl success ↦ rw success (ready-kept n.dependency_ids (rw success at h))
    | inr failure ↦ rw failure refl
  ]

  -- A round that adds such outcomes keeps the progress.
  pub advance : Progress nodes (drop_done os pending) (put_outcomes outcomes os)
  advance = record {
    known = λ n m.
        p.known n (mem-of-select (λ x. not (contains (outcome_ids os) x.task_id)) pending m).0;
    cover = λ n m h.
        let split = has-put_outcomes os outcomes n.task_id in
        mem-select (λ x. not (contains (outcome_ids os) x.task_id)) pending
          (p.cover n m (ground arith)) (ground arith);
    apart = λ n m.
        let (k, stays) = mem-of-select (λ x. not (contains (outcome_ids os) x.task_id)) pending m in
        let old = p.apart n k in ground (arith, has-put_outcomes os outcomes n.task_id);
    sound = λ id o e. elim (put_outcomes-cases os outcomes id o e) [
      | inl (m, own) ↦
          let n = news o m in
          record {
            node = n.node;
            listed = p.known n.node n.listed;
            node_id = sym n.own_id ∙ own;
            own_id = own;
            within = n.within;
            in_order = in_order-kept n.node o n.in_order;
          }
      | inr old ↦
          let s = p.sound id o old in
          record {
            node = s.node;
            listed = s.listed;
            node_id = s.node_id;
            own_id = s.own_id;
            within = s.within;
            in_order = in_order-kept s.node o s.in_order;
          }
    ];
  }
