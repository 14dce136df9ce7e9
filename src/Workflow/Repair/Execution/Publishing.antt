-- ===== src/Workflow/Repair/Execution/Publishing.antt =====
-- What the execution of a repair writes.
use multi_agent_based_intell.Prelude.{
  ℕ, ◌+◌, String, ◌≡◌, refl, sym, ap, subst, not, ◌||◌, Option, none, some, List, [], ◌∷◌, map,
  Result, ok, err, ◌>>=◌, ◌++◌, arith, nat_beq, ◌==◌, eq_iff, string_eq, if_both, All,
}
use multi_agent_based_intell.Prelude.Dict
use multi_agent_based_intell.Prelude.Dict.{Dict}
use multi_agent_based_intell.Domain.Messaging.{ArtifactRef}
use multi_agent_based_intell.Harness.Blackboard.{
  ArtifactRecord, Board, BoardError, head_key, latest, write, to_ref,
}
use multi_agent_based_intell.Harness.Blackboard.Write.{Outcome, accepts, rejects, write-Outcome}
use multi_agent_based_intell.Harness.Blackboard.History.{write_all}
use multi_agent_based_intell.Workflow.Repair.{RepairPlan}
use multi_agent_based_intell.Workflow.Repair.Execution.{
  RepairHandler, ExecutionError, publish_after, publish, version_of, run_task, then_rest, run_tasks,
  from_round, execute, written, handled, with_dependencies,
}

-- What one task does to the board: one accepted write of the task's Artifact, or nothing.
data Step (run_id task_id : String) (b : Board)
    : Result ExecutionError ArtifactRef × Board → Type 0 where
  wrote :
      (a : ArtifactRecord) (n : ℕ)
      → a.run_id ≡ run_id
      → a.task_id ≡ task_id
      → (write b a n).0 ≡ ok (to_ref a)
      → Step run_id task_id b (ok (to_ref a), (write b a n).1)
  missed : (e : ExecutionError) → Step run_id task_id b (err e, b)

-- The Blackboard accepts the writes, one after another.
abbrev pub AllAccepted : Board → List (ArtifactRecord × ℕ) → Type 0
AllAccepted b [] = Unit
AllAccepted b ((a, n) ∷ calls) =
    ((write b a n).0 ≡ ok (to_ref a)) × AllAccepted (write b a n).1 calls

-- The accepted writes of an execution, in order, each an Artifact of the run for the next task: all of the
-- tasks, or those before the one that raised.
pub data Published (run_id : String) (b : Board)
    : List String → Result ExecutionError (List ArtifactRef) × Board → Type 0 where
  completes :
      (calls : List (ArtifactRecord × ℕ))
      → All (λ c. c.0.run_id ≡ run_id) calls
      → AllAccepted b calls
      → Published run_id b
          (map (λ c. c.0.task_id) calls)
          (ok (map (λ c. to_ref c.0) calls), write_all b calls)
  stops :
      (tasks : List String) (e : ExecutionError) (calls : List (ArtifactRecord × ℕ))
      (rest : List String)
      → All (λ c. c.0.run_id ≡ run_id) calls
      → AllAccepted b calls
      → tasks ≡ map (λ c. c.0.task_id) calls ++ rest
      → Published run_id b tasks (err e, write_all b calls)

written-Step :
    (run_id task_id : String) (b : Board) (a : ArtifactRecord) (n : ℕ)
    (q : Result BoardError ArtifactRef × Board)
    → a.run_id ≡ run_id
    → a.task_id ≡ task_id
    → write b a n ≡ q
    → Outcome b a n q
    → Step run_id task_id b (written q)
written-Step run_id task_id b a n _ r t e (accepts ok_now) =
    subst (λ z. Step run_id task_id b (ok (to_ref a), z)) (ap (λ q. q.1) e)
      (wrote a n r t (ap (λ q. q.0) e))
written-Step run_id task_id b a n _ r t e (rejects x turned_down) = missed _

publish_after-Step :
    (run_id task_id : String) (b : Board) (a : ArtifactRecord)
    (o : Result BoardError (Option ArtifactRecord))
    → a.run_id ≡ run_id
    → a.task_id ≡ task_id
    → Step run_id task_id b (publish_after b a o)
publish_after-Step run_id task_id b a (err e) r t = missed _
publish_after-Step run_id task_id b a (ok found) r t =
    if_both (Step run_id task_id b) (not (nat_beq a.version (version_of found + 1)))
      (λ old. missed _)
      (λ next.
        written-Step run_id task_id b a (version_of found) (write b a (version_of found)) r t refl
          (write-Outcome b a (version_of found)))

module _ (plan : RepairPlan) (task_id : String) (b : Board) where
  publish-Step : (a : ArtifactRecord) → Step plan.run_id task_id b (publish plan task_id b a)
  publish-Step a =
      if_both (Step plan.run_id task_id b)
        (not (a.run_id == plan.run_id) || not (a.task_id == task_id)) (λ wrong. missed _)
        (λ right.
          publish_after-Step plan.run_id task_id b a (latest b (head_key a))
            (ground (arith, eq_iff a.run_id plan.run_id))
            (ground (arith, eq_iff a.task_id task_id)))

  handled-Step :
      (round : ℕ) (handler : RepairHandler) (refs : Result ExecutionError (List ArtifactRef))
      → Step plan.run_id task_id b (handled plan task_id round b handler refs)
  handled-Step round handler (err e) = missed e
  handled-Step round handler (ok refs) = publish-Step _

  dependencies-Step :
      (round : ℕ) (seen : Dict String ArtifactRef) (handler : RepairHandler)
      (ds : Option (List String))
      → Step plan.run_id task_id b (with_dependencies plan task_id round seen b handler ds)
  dependencies-Step round seen handler none = missed _
  dependencies-Step round seen handler (some ds) = handled-Step round handler _

  run_task-Step :
      (round : ℕ) (seen : Dict String ArtifactRef) (handler : Option RepairHandler)
      → Step plan.run_id task_id b (run_task plan task_id round seen b handler)
  run_task-Step round seen none = missed _
  run_task-Step round seen (some handler) = dependencies-Step round seen handler _

  -- One task, and the tasks after it.
  then_rest-Published :
      (tasks : List String)
      (next : ArtifactRef → Board → Result ExecutionError (List ArtifactRef) × Board)
      (q : Result ExecutionError ArtifactRef × Board)
      → Step plan.run_id task_id b q
      → ((ref : ArtifactRef) (after : Board) → Published plan.run_id after tasks (next ref after))
      → Published plan.run_id b (task_id ∷ tasks) (then_rest next q)
  unfolding write_all
  then_rest-Published tasks next _ (missed e) ih =
      stops (task_id ∷ tasks) e [] (task_id ∷ tasks) tt tt refl
  then_rest-Published tasks next _ (wrote a n r t ok_now) ih =
      joined tasks _ (ih (to_ref a) (write b a n).1)
    where
      joined :
          (ts : List String) (q : Result ExecutionError (List ArtifactRef) × Board)
          → Published plan.run_id (write b a n).1 ts q
          → Published plan.run_id b (task_id ∷ ts) (q.0 >>= (λ rs. ok (to_ref a ∷ rs)), q.1)
      joined _ _ (completes calls own accepted) =
          subst
            (λ i.
              Published plan.run_id b (i ∷ map (λ c. c.0.task_id) calls)
                (ok (to_ref a ∷ map (λ c. to_ref c.0) calls), write_all (write b a n).1 calls))
            t (completes ((a, n) ∷ calls) (r, own) (ok_now, accepted))
      joined ts _ (stops _ e calls rest own accepted same) =
          stops (task_id ∷ ts) e ((a, n) ∷ calls) rest (r, own) (ok_now, accepted)
            (subst (λ i. task_id ∷ ts ≡ i ∷ (map (λ c. c.0.task_id) calls ++ rest)) (sym t)
              (ap (λ xs. task_id ∷ xs) same))

module _ (handlers : Dict String RepairHandler) (plan : RepairPlan) where
  run_tasks-Published :
      (round : ℕ) (tasks : List String) (seen : Dict String ArtifactRef) (b : Board)
      → Published plan.run_id b tasks (run_tasks handlers plan round tasks seen b)
  unfolding run_tasks write_all
  run_tasks-Published round [] seen b = completes [] tt tt
  run_tasks-Published round (task_id ∷ rest) seen b =
      then_rest-Published plan task_id b rest _ _
        (run_task-Step plan task_id b round seen (Dict.get handlers task_id))
        (λ ref after. run_tasks-Published round rest (Dict.put seen task_id ref) after)

  -- An execution writes to the Blackboard one Artifact of the plan's run for each invalidated task,
  -- in the plan's order, each of which the Blackboard accepts, and returns their references. When it
  -- raises, what it has written, and the Blackboard has accepted, is that for the tasks before. It
  -- changes the board by writes only.
  pub execute-Published :
      (b : Board) → Published plan.run_id b plan.invalidated_task_ids (execute handlers plan b)
  unfolding execute write_all
  execute-Published b =
      if_both (Published plan.run_id b plan.invalidated_task_ids) plan.waiting_user
        (λ waits. stops _ _ [] _ tt tt refl) (λ runs. started plan.next_revision_round)
    where
      started :
          (o : Option ℕ)
          → Published plan.run_id b plan.invalidated_task_ids (from_round handlers plan o b)
      started none = stops _ _ [] _ tt tt refl
      started (some round) = run_tasks-Published round plan.invalidated_task_ids [] b
