-- ===== src/Workflow/Repair/Execution.antt =====
-- packages/workflow/repair.py: `execute` of `TargetedRepairController`, over the model of the
-- Blackboard. A handler is a function of its context; while it runs, nobody else writes.
pub mod Publishing
use multi_agent_based_intell.Prelude.{
  ℕ, ◌+◌, String, Bool, false, not, ◌||◌, Option, none, some, List, [], ◌∷◌, Result, ok, err, ◌>>=◌,
  nat_beq, ◌==◌, string_eq, select, if◌then◌else◌,
}
use multi_agent_based_intell.Prelude.Dict
use multi_agent_based_intell.Prelude.Dict.{Dict}
use multi_agent_based_intell.Domain.Messaging.{ArtifactRef}
use multi_agent_based_intell.Harness.Blackboard.{
  ArtifactRecord, Board, BoardError, head_key, latest, write, to_ref,
}
use multi_agent_based_intell.Domain.Review.{PatchRequest}
use multi_agent_based_intell.Workflow.Repair.{RepairPlan, task_dependencies, agent_tasks}

abbrev pub task_artifact_types : Dict String String
task_artifact_types =
    ("destination_intelligence", "destination_intel")
    ∷ ("mobility_lodging", "mobility_lodging")
    ∷ ("build_route_matrix", "route_matrix")
    ∷ ("itinerary_planning", "plan_candidates")
    ∷ ("critic_review", "review")
    ∷ []

pub record RepairExecutionContext : Type 0 where
  pub run_id : String
  pub task_id : String
  pub revision_round : ℕ
  pub patch_requests : List PatchRequest
  pub upstream_refs : List ArtifactRef

abbrev pub RepairHandler : Type 0
RepairHandler = RepairExecutionContext → ArtifactRecord

-- One constructor for each `raise`; `board` passes on what the Blackboard raises, and `unknown_task`
-- is a failed subscript.
pub data ExecutionError : Type 0 where
  not_ready missing_handler missing_upstream unknown_task wrong_run_or_task : ExecutionError
  version_not_next : ExecutionError
  board : BoardError → ExecutionError

abbrev current_ref : Result BoardError (Option ArtifactRecord) → Result ExecutionError ArtifactRef
current_ref (err e) = err (board e)
current_ref (ok none) = err missing_upstream
current_ref (ok (some current)) = ok (to_ref current)

abbrev typed_ref : Board → String → String → Option String → Result ExecutionError ArtifactRef
typed_ref b run_id dependency none = err unknown_task
typed_ref b run_id dependency (some artifact_type) =
    current_ref (latest b (run_id, (dependency, artifact_type)))

abbrev upstream_ref :
    Board → String → String → Option ArtifactRef → Result ExecutionError ArtifactRef
upstream_ref b run_id dependency (some ref) = ok ref
upstream_ref b run_id dependency none =
    typed_ref b run_id dependency (Dict.get task_artifact_types dependency)

-- The loop over the dependencies.
unfoldable pub upstream_refs :
    Board
    → String
    → Dict String ArtifactRef
    → List String
    → Result ExecutionError (List ArtifactRef)
upstream_refs b run_id latest_by_task [] = ok []
upstream_refs b run_id latest_by_task (dependency ∷ rest) =
    upstream_ref b run_id dependency (Dict.get latest_by_task dependency) >>= λ ref.
    upstream_refs b run_id latest_by_task rest >>= λ refs. ok (ref ∷ refs)

abbrev names : Option String → String → Bool
names none task_id = false
names (some named) task_id = named == task_id

abbrev pub version_of : Option ArtifactRecord → ℕ
version_of none = 0
version_of (some latest) = latest.version

abbrev pub written :
    Result BoardError ArtifactRef × Board → Result ExecutionError ArtifactRef × Board
written (ok ref, b) = (ok ref, b)
written (err e, b) = (err (board e), b)

abbrev pub publish_after :
    Board
    → ArtifactRecord
    → Result BoardError (Option ArtifactRecord)
    → Result ExecutionError ArtifactRef × Board
publish_after b artifact (err e) = (err (board e), b)
publish_after b artifact (ok latest) =
    if not (nat_beq artifact.version (version_of latest + 1))
    then (err version_not_next, b)
    else written (write b artifact (version_of latest))

-- What happens to a handler's Artifact.
abbrev pub publish :
    RepairPlan → String → Board → ArtifactRecord → Result ExecutionError ArtifactRef × Board
publish plan task_id b artifact =
    if not (artifact.run_id == plan.run_id) || not (artifact.task_id == task_id)
    then (err wrong_run_or_task, b)
    else publish_after b artifact (latest b (head_key artifact))

abbrev context : RepairPlan → String → ℕ → List ArtifactRef → RepairExecutionContext
context plan task_id round refs = record {
  run_id = plan.run_id;
  task_id = task_id;
  revision_round = round;
  patch_requests =
      select (λ patch. names (Dict.get agent_tasks patch.target_agent) task_id) plan.patch_requests;
  upstream_refs = refs;
}

abbrev pub handled :
    RepairPlan
    → String
    → ℕ
    → Board
    → RepairHandler
    → Result ExecutionError (List ArtifactRef)
    → Result ExecutionError ArtifactRef × Board
handled plan task_id round b handler (err e) = (err e, b)
handled plan task_id round b handler (ok refs) =
    publish plan task_id b (handler (context plan task_id round refs))

abbrev pub with_dependencies :
    RepairPlan
    → String
    → ℕ
    → Dict String ArtifactRef
    → Board
    → RepairHandler
    → Option (List String)
    → Result ExecutionError ArtifactRef × Board
with_dependencies plan task_id round latest_by_task b handler none = (err unknown_task, b)
with_dependencies plan task_id round latest_by_task b handler (some dependencies) =
    handled plan task_id round b handler (upstream_refs b plan.run_id latest_by_task dependencies)

-- The body of the loop over the invalidated tasks.
abbrev pub run_task :
    RepairPlan
    → String
    → ℕ
    → Dict String ArtifactRef
    → Board
    → Option RepairHandler
    → Result ExecutionError ArtifactRef × Board
run_task plan task_id round latest_by_task b none = (err missing_handler, b)
run_task plan task_id round latest_by_task b (some handler) =
    with_dependencies plan task_id round latest_by_task b handler
      (Dict.get task_dependencies task_id)

abbrev pub then_rest :
    (ArtifactRef → Board → Result ExecutionError (List ArtifactRef) × Board)
    → Result ExecutionError ArtifactRef × Board
    → Result ExecutionError (List ArtifactRef) × Board
then_rest next (err e, b) = (err e, b)
then_rest next (ok ref, b) = let (refs, after) = next ref b in (refs >>= λ rs. ok (ref ∷ rs), after)

module _ (handlers : Dict String RepairHandler) (plan : RepairPlan) where
  -- The loop, which gives the published references in order.
  unfoldable pub run_tasks :
      ℕ
      → List String
      → Dict String ArtifactRef
      → Board
      → Result ExecutionError (List ArtifactRef) × Board
  unfolding upstream_refs
  run_tasks round [] latest_by_task b = (ok [], b)
  run_tasks round (task_id ∷ rest) latest_by_task b =
      then_rest (λ ref. run_tasks round rest (Dict.put latest_by_task task_id ref))
        (run_task plan task_id round latest_by_task b (Dict.get handlers task_id))

  abbrev pub from_round : Option ℕ → Board → Result ExecutionError (List ArtifactRef) × Board
  from_round none b = (err not_ready, b)
  from_round (some round) b = run_tasks round plan.invalidated_task_ids [] b

  unfoldable pub execute : Board → Result ExecutionError (List ArtifactRef) × Board
  unfolding run_tasks
  execute b =
      if plan.waiting_user then (err not_ready, b) else from_round plan.next_revision_round b
