-- ===== src/Harness/Scheduler/Rounds/Ends.antt =====
-- `DagScheduler.run` as a whole.
use multi_agent_based_intell.Prelude.{
  ℕ, zero, suc, ◌<◌, ◌≡◌, refl, sym, subst, ◌⊎◌, inl, inr, Bool, true, false, not, List, [], ◌∷◌,
  Memᴰ, Result, ok, err, ◌>>=◌, arith, string_eq, contains, mem-contains, is_empty, select,
  mem-select, mem-of-select, mem-map, mem-cons_cases, Bool-cases, if_both, if◌then◌else◌, length,
  length-select-le,
}
use multi_agent_based_intell.Prelude.Dict
use multi_agent_based_intell.Prelude.Sorting.{sort_by, mem-of-sort_by, mem-sort_by}
use multi_agent_based_intell.Harness.Scheduler.Graph.{TaskNode, node_ids}
use multi_agent_based_intell.Harness.Scheduler.Nodes.{TaskOutcome, World, SchedulerError, deadlock}
use multi_agent_based_intell.Harness.Scheduler.Nodes.Verdict.{Breaks}
use multi_agent_based_intell.Harness.Scheduler.Rounds.{
  Outcomes, is_ready_node, is_blocked_node, put_outcomes, outcome_ids, drop_done, not_run, by_id,
  cancel_rest, cancel_blocked, ready_nodes, after_blocked, run_rounds, run,
}
use multi_agent_based_intell.Harness.Scheduler.Rounds.Progress.{Progress, advance}
use multi_agent_based_intell.Harness.Scheduler.Rounds.Settled.{
  IsDag, cancelled-IsNews, NodesEnd, all_end, one_breaks, run_nodes-NodesEnd,
}
use multi_agent_based_intell.Harness.Scheduler.Rounds.Stalls.{
  none_pending, HasGrandchild, newly_blocked,
}

-- The ways a run ends: with outcomes, with the deadlock error, or as an operation of a node has it.
pub data Settled (world : World) (nodes : List TaskNode)
    : Result SchedulerError Outcomes → Type 0 where
  settles : (outcomes : Outcomes) → Progress nodes [] outcomes → Settled world nodes (ok outcomes)
  stalls : HasGrandchild nodes → Settled world nodes (err deadlock)
  breaks_off :
      (n : TaskNode)
      → Memᴰ n nodes
      → (e : SchedulerError) → Breaks world n e
      → Settled world nodes (err e)

empty-of : (xs : List TaskNode) → is_empty xs ≡ true → xs ≡ []
empty-of [] h = refl
empty-of (x ∷ xs) h = cc

first_of : (xs : List TaskNode) → is_empty xs ≡ false → (x : TaskNode) × Memᴰ x xs
first_of [] h = absurd (ground arith)
first_of (x ∷ xs) h = (x, Memᴰ.head refl)

nonempty-of : (xs : List TaskNode) {x : TaskNode} → Memᴰ x xs → is_empty xs ≡ false
nonempty-of [] m = elim m [ ]
nonempty-of (x ∷ xs) m = refl

any_node :
    (p : TaskNode → Bool) (xs : List TaskNode)
    → ((x : TaskNode) × Memᴰ x xs × (p x ≡ true)) ⊎ ((x : TaskNode) → Memᴰ x xs → p x ≡ false)
any_node p [] = inr λ x m. elim m [ ]
any_node p (y ∷ xs) = elim (Bool-cases (p y)) [
  | inl here ↦ inl (y, Memᴰ.head refl, here)
  | inr other ↦ elim (any_node p xs) [
    | inl (x, m, e) ↦ inl (x, Memᴰ.tail m, e)
    | inr none_there ↦ inr λ x m. elim (mem-cons_cases m) [
      | inl same ↦ subst (λ z. p z ≡ false) (sym same) other
      | inr later ↦ none_there x later
    ]
  ]
]

all_dropped :
    (os : List TaskOutcome) (xs : List TaskNode)
    → ((x : TaskNode) → Memᴰ x xs → contains (outcome_ids os) x.task_id ≡ true)
    → drop_done os xs ≡ []
all_dropped os [] h = refl
all_dropped os (x ∷ xs) h =
    ground (arith, h x (Memᴰ.head refl), all_dropped os xs (λ y m. h y (Memᴰ.tail m)))

drop-shorter :
    (os : List TaskOutcome) (xs : List TaskNode) {x : TaskNode}
    → Memᴰ x xs
    → contains (outcome_ids os) x.task_id ≡ true
    → length (drop_done os xs) < length xs
drop-shorter os [] m h = elim m [ ]
drop-shorter os (y ∷ xs) (Memᴰ.head e) h =
    ground (arith, e, length-select-le (λ n. not (contains (outcome_ids os) n.task_id)) xs)
drop-shorter os (y ∷ xs) (Memᴰ.tail m) h = ground (arith, drop-shorter os xs m h)

-- Every pending node is among those that a cancellation ends.
rest_ids :
    (pending : List TaskNode) (n : TaskNode)
    → Memᴰ n pending
    → contains (outcome_ids (cancel_rest pending)) n.task_id ≡ true
rest_ids pending n m = mem-contains (outcome_ids (cancel_rest pending)) (
    mem-map (λ o. o.task_id) (cancel_rest pending)
      (mem-map (not_run "run_cancelled") (sort_by by_id pending) (mem-sort_by by_id pending m)))

module _ (world : World) (nodes : List TaskNode) (dag : IsDag nodes) where
  -- A round without a node to run.
  quiet_round :
      (pending : List TaskNode) (outcomes : Outcomes)
      → Progress nodes pending outcomes
      → is_empty (
          ready_nodes
            (drop_done (cancel_blocked pending outcomes) pending)
            (put_outcomes outcomes (cancel_blocked pending outcomes)))
        ≡ true
      → is_empty (drop_done (cancel_blocked pending outcomes) pending) ≡ false
      → HasGrandchild nodes
  quiet_round pending outcomes p quiet left =
      let os = cancel_blocked pending outcomes in
      let pending' = drop_done os pending in
      let outcomes' = put_outcomes outcomes os in
      let p' = advance p os (
        cancelled-IsNews "dependency_failed" pending (select (is_blocked_node outcomes) pending)
          outcomes (λ n m. (mem-of-select (is_blocked_node outcomes) pending m).0)) in
      elim (any_node (is_blocked_node outcomes') pending') [
        | inl (n, m, b) ↦ newly_blocked nodes pending outcomes p n m b
        | inr unblocked ↦
            let (n, m) = first_of pending' left in
            absurd (
              ground (
                arith,
                none_pending nodes pending' outcomes' dag p' (not_ready pending' outcomes' quiet)
                    unblocked n m,
              ))
      ]
    where
      not_ready :
          (xs : List TaskNode) (outcomes : Outcomes)
          → is_empty (ready_nodes xs outcomes) ≡ true
          → (n : TaskNode) → Memᴰ n xs
          → is_ready_node outcomes n ≡ false
      not_ready xs outcomes e n m = elim (Bool-cases (is_ready_node outcomes n)) [
        | inr away ↦ away
        | inl ready ↦ absurd (
            ground (
              arith,
              nonempty-of (ready_nodes xs outcomes) (
                  mem-sort_by by_id (select (is_ready_node outcomes) xs)
                    (mem-select (is_ready_node outcomes) xs m ready)),
            ))
      ]

  module _ (token : ℕ → Bool) where
    -- A round that has nodes to run, and the rounds after it.
    busy_round :
        (next : List TaskNode → Outcomes → Result SchedulerError Outcomes) (pending : List TaskNode)
        (outcomes : Outcomes)
        → Progress nodes pending outcomes
        → is_empty (ready_nodes pending outcomes) ≡ false
        → ((rest : List TaskNode) (later : Outcomes)
            → Progress nodes rest later
            → length rest < length pending
            → Settled world nodes (next rest later))
        → Settled world nodes (after_blocked world next pending outcomes)
    busy_round next pending outcomes p busy ih = by_end _ (
        run_nodes-NodesEnd world pending outcomes (ready_nodes pending outcomes)
          (λ n m. let (k, r) = listed n m in (k, r, dag.attempts n (p.known n k))))
      where
        listed :
            (n : TaskNode)
            → Memᴰ n (ready_nodes pending outcomes)
            → Memᴰ n pending × (is_ready_node outcomes n ≡ true)
        listed n m =
            mem-of-select (is_ready_node outcomes) pending
              (mem-of-sort_by by_id (select (is_ready_node outcomes) pending) m)

        by_end :
            (r : Result SchedulerError (List TaskOutcome))
            → NodesEnd world pending outcomes (ready_nodes pending outcomes) r
            → Settled world nodes (
                if is_empty (ready_nodes pending outcomes)
                then if is_empty pending then ok outcomes else err deadlock
                else r >>= λ os. next (drop_done os pending) (put_outcomes outcomes os))
        by_end _ (one_breaks n m e b) = rw busy (breaks_off n (p.known n (listed n m).0) e b)
        by_end _ (all_end os ids news) =
            let (x, m) = first_of (ready_nodes pending outcomes) busy in
            let run_now =
              mem-contains (node_ids (ready_nodes pending outcomes))
                (mem-map (λ n. n.task_id) (ready_nodes pending outcomes) m) in
            rw busy (
              ih (drop_done os pending) (put_outcomes outcomes os) (advance p os news)
                (drop-shorter os pending (listed x m).0 (ground (arith, ids, run_now))))

    -- A round after the check of the token, and the rounds after it.
    blocked_round :
        (next : List TaskNode → Outcomes → Result SchedulerError Outcomes) (pending : List TaskNode)
        (outcomes : Outcomes)
        → Progress nodes pending outcomes
        → ((rest : List TaskNode) (later : Outcomes)
            → Progress nodes rest later
            → length rest < length (drop_done (cancel_blocked pending outcomes) pending)
            → Settled world nodes (next rest later))
        → Settled world nodes (
            after_blocked world next
              (drop_done (cancel_blocked pending outcomes) pending)
              (put_outcomes outcomes (cancel_blocked pending outcomes)))
    blocked_round next pending outcomes p ih =
        let os = cancel_blocked pending outcomes in
        let outcomes' = put_outcomes outcomes os in
        let p' = advance p os (
          cancelled-IsNews "dependency_failed" pending (select (is_blocked_node outcomes) pending)
            outcomes (λ n m. (mem-of-select (is_blocked_node outcomes) pending m).0)) in
        elim (Bool-cases (is_empty (ready_nodes (drop_done os pending) outcomes'))) [
          | inl quiet ↦ rw quiet (
              if_both (Settled world nodes) (is_empty (drop_done os pending))
                (λ e. settles outcomes' (
                  subst (λ xs. Progress nodes xs outcomes') (empty-of (drop_done os pending) e) p'))
                (λ left. stalls (quiet_round pending outcomes p quiet left)))
          | inr busy ↦ busy_round next (drop_done os pending) outcomes' p' busy ih
        ]

    rounds-Settled :
        (fuel k : ℕ) (pending : List TaskNode) (outcomes : Outcomes)
        → Progress nodes pending outcomes
        → length pending < fuel
        → Settled world nodes (run_rounds world token fuel k pending outcomes)
    unfolding run_rounds
    rounds-Settled zero k pending outcomes p lt = absurd (omega arith)
    rounds-Settled (suc fuel) k pending outcomes p lt =
        if_both (Settled world nodes) (is_empty pending)
          (λ e. settles outcomes (subst (λ xs. Progress nodes xs outcomes) (empty-of pending e) p))
          (λ some_left.
            if_both (Settled world nodes) (token k)
              (λ stop. settles (put_outcomes outcomes (cancel_rest pending)) (
                subst (λ xs. Progress nodes xs (put_outcomes outcomes (cancel_rest pending)))
                  (all_dropped (cancel_rest pending) pending (rest_ids pending))
                  (advance p (cancel_rest pending)
                    (cancelled-IsNews "run_cancelled" pending pending outcomes (λ n m. m)))))
              (λ going.
                blocked_round (run_rounds world token fuel (suc k)) pending outcomes p
                  λ rest later q shorter. rounds-Settled fuel (suc k) rest later q (
                    omega (
                      arith,
                      length-select-le
                          (λ n.
                            not
                              (contains (outcome_ids (cancel_blocked pending outcomes)) n.task_id))
                          pending,
                    ))))

    start-Progress : Progress nodes nodes []
    unfolding Dict.get
    start-Progress = record {
      known = λ n m. m;
      cover = λ n m h. m;
      apart = λ n m. refl;
      sound = λ id o e. absurd (cc);
    }

    -- A run of accepted nodes, whenever its token is cancelled, gives every node an outcome, within
    -- the node's attempts and successful only after all the node's dependencies; or it raises the
    -- deadlock error, which takes a node that depends on one with a dependency of its own; or an
    -- operation of a node ends in `asyncio.CancelledError`, which the run raises; or an operation
    -- does not end when it is cancelled, and the run waits for it.
    pub run-Settled : Settled world nodes (run world token nodes)
    unfolding run
    run-Settled = rounds-Settled (suc (length nodes)) 0 nodes [] start-Progress (omega arith)
