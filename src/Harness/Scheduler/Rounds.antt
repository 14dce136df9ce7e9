-- ===== src/Harness/Scheduler/Rounds.antt =====
-- packages/harness/scheduler.py: `DagScheduler.run`. `pending` holds the nodes of the pending ids,
-- so `dag.nodes[task_id]` is the node itself; the tasks of a `gather` are independent of each
-- other, and their order is that of `ready`.
pub mod Progress
pub mod Settled
pub mod Stalls
pub mod Ends
pub mod Chain
use multi_agent_based_intell.Prelude.{
  ℕ, zero, suc, String, Bool, false, not, ◌&&◌, Option, none, some, List, [], ◌∷◌, map, Result, ok,
  err, ◌>>=◌, string_eq, contains, is_empty, all_of, any_of, select, length, if◌then◌else◌,
}
use multi_agent_based_intell.Prelude.Dict
use multi_agent_based_intell.Prelude.Dict.{Dict}
use multi_agent_based_intell.Prelude.Sorting.{sort_by}
use multi_agent_based_intell.Domain.Messaging.{is_succeeded, cancelled}
use multi_agent_based_intell.Prelude.Strings.{str_le}
use multi_agent_based_intell.Harness.Scheduler.Graph.{TaskNode}
use multi_agent_based_intell.Harness.Scheduler.Nodes.{
  TaskOutcome, World, SchedulerError, deadlock, never_ends, out_of_fuel, outcome, run_node,
}

abbrev pub Outcomes : Type 0
Outcomes = Dict String TaskOutcome

abbrev pub outcome_succeeded : Option TaskOutcome → Bool
outcome_succeeded none = false
outcome_succeeded (some o) = is_succeeded o.state

-- `d in outcomes and outcomes[d].state is not SUCCEEDED`
abbrev pub dependency_failed : Outcomes → String → Bool
dependency_failed outcomes d = Dict.has outcomes d && not (outcome_succeeded (Dict.get outcomes d))

-- `d in outcomes and outcomes[d].state is SUCCEEDED`
abbrev pub dependency_succeeded : Outcomes → String → Bool
dependency_succeeded outcomes d = outcome_succeeded (Dict.get outcomes d)

abbrev pub is_blocked_node : Outcomes → TaskNode → Bool
is_blocked_node outcomes node = any_of (dependency_failed outcomes) node.dependency_ids

abbrev pub is_ready_node : Outcomes → TaskNode → Bool
is_ready_node outcomes node = all_of (dependency_succeeded outcomes) node.dependency_ids

-- `sorted` of the nodes' ids.
abbrev pub by_id : TaskNode → TaskNode → Bool
by_id a b = str_le a.task_id b.task_id

-- `for outcome in ...: outcomes[outcome.task_id] = outcome`
unfoldable pub put_outcomes : Outcomes → List TaskOutcome → Outcomes
put_outcomes outcomes [] = outcomes
put_outcomes outcomes (o ∷ os) = put_outcomes (Dict.put outcomes o.task_id o) os

abbrev pub not_run : String → TaskNode → TaskOutcome
not_run code node = outcome node cancelled 0 none (some code)

abbrev pub outcome_ids : List TaskOutcome → List String
outcome_ids os = map (λ o. o.task_id) os

-- `pending` less the nodes that have one of the outcomes.
abbrev pub drop_done : List TaskOutcome → List TaskNode → List TaskNode
drop_done os pending = select (λ node. not (contains (outcome_ids os) node.task_id)) pending

abbrev pub cancel_rest : List TaskNode → List TaskOutcome
cancel_rest pending = map (not_run "run_cancelled") (sort_by by_id pending)

abbrev pub cancel_blocked : List TaskNode → Outcomes → List TaskOutcome
cancel_blocked pending outcomes =
    map (not_run "dependency_failed") (sort_by by_id (select (is_blocked_node outcomes) pending))

abbrev pub ready_nodes : List TaskNode → Outcomes → List TaskNode
ready_nodes pending outcomes = sort_by by_id (select (is_ready_node outcomes) pending)

-- A task that fails makes `asyncio.gather` fail, also where another one never ends.
abbrev pub first_error : SchedulerError → Result SchedulerError (List TaskOutcome) → SchedulerError
first_error never_ends (err e) = e
first_error e _ = e

abbrev pub gathered :
    Result SchedulerError TaskOutcome
    → Result SchedulerError (List TaskOutcome)
    → Result SchedulerError (List TaskOutcome)
gathered (err e) others = err (first_error e others)
gathered (ok o) others = others >>= λ os. ok (o ∷ os)

module _ (world : World) where
  -- `asyncio.gather`
  unfoldable pub run_nodes : List TaskNode → Result SchedulerError (List TaskOutcome)
  run_nodes [] = ok []
  run_nodes (node ∷ nodes) = gathered (run_node world node) (run_nodes nodes)

  -- A round once the blocked nodes are cancelled, where `next` is the rest of the loop.
  abbrev pub after_blocked :
      (List TaskNode → Outcomes → Result SchedulerError Outcomes)
      → List TaskNode
      → Outcomes
      → Result SchedulerError Outcomes
  after_blocked next pending outcomes =
      if is_empty (ready_nodes pending outcomes)
      then if is_empty pending then ok outcomes else err deadlock
      else run_nodes (ready_nodes pending outcomes) >>= λ os.
          next (drop_done os pending) (put_outcomes outcomes os)

  -- `while pending`, whose round number `k` finds the token cancelled when `token k`. A round ends
  -- a node at least, so one round more than there are nodes is fuel enough.
  module _ (token : ℕ → Bool) where
    unfoldable pub run_rounds : ℕ → ℕ → List TaskNode → Outcomes → Result SchedulerError Outcomes
    run_rounds zero k pending outcomes = err out_of_fuel
    run_rounds (suc fuel) k pending outcomes =
        let blocked = cancel_blocked pending outcomes in
        if is_empty pending
        then ok outcomes
        else if token k
        then ok (put_outcomes outcomes (cancel_rest pending))
        else after_blocked (run_rounds fuel (suc k)) (drop_done blocked pending)
            (put_outcomes outcomes blocked)

    -- `DagScheduler.run`
    unfoldable pub run : List TaskNode → Result SchedulerError Outcomes
    unfolding run_rounds
    run nodes = run_rounds (suc (length nodes)) 0 nodes []
