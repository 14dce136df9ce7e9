-- ===== src/Workflow/Repair.antt =====
-- packages/workflow/repair.py: `plan`, `resume_after_clarification` and `_dependency_closure` of
-- `TargetedRepairController`. A set of task ids is a list that is read by membership only.
pub mod Closure
pub mod Least
pub mod Plans
pub mod Execution
mod Tests
use text.Mathlib.Text.{starts_with}
use multi_agent_based_intell.Prelude.{
  ℕ, zero, suc, ◌+◌, String, Bool, true, false, not, ◌&&◌, ◌||◌, Option, none, some, List, [], ◌∷◌,
  map, Result, ok, err, leb, ◌==◌, string_eq, contains, any_of, all_of, is_empty, select,
  if◌then◌else◌,
}
use multi_agent_based_intell.Prelude.Dict
use multi_agent_based_intell.Prelude.Dict.{Dict}
use multi_agent_based_intell.Domain.Review.{PatchRequest, ReviewArtifact, is_revise}
use multi_agent_based_intell.Domain.Json.{Json, Fields, end, field, string}

abbrev pub task_order : List String
task_order =
    "destination_intelligence" ∷ "mobility_lodging" ∷ "build_route_matrix" ∷ "itinerary_planning"
    ∷ "critic_review" ∷ []

abbrev pub task_dependencies : Dict String (List String)
task_dependencies =
    ("destination_intelligence", [])
    ∷ ("mobility_lodging", [])
    ∷ ("build_route_matrix", "destination_intelligence" ∷ "mobility_lodging" ∷ [])
    ∷ ("itinerary_planning", "build_route_matrix" ∷ [])
    ∷ ("critic_review", "itinerary_planning" ∷ [])
    ∷ []

abbrev pub agent_tasks : Dict String String
agent_tasks =
    ("destination_intelligence", "destination_intelligence")
    ∷ ("mobility_lodging", "mobility_lodging")
    ∷ ("itinerary_planner", "itinerary_planning")
    ∷ ("critic", "critic_review")
    ∷ []

-- The test in the loop of `_dependency_closure`.
abbrev pub is_reached : List String → String × List String → Bool
is_reached invalidated row = not (contains invalidated row.0) && any_of (contains invalidated) row.1

-- The `for` loop, with the set and the flag `changed`.
unfoldable pub sweep : Dict String (List String) → List String × Bool → List String × Bool
sweep [] state = state
sweep (row ∷ rows) (invalidated, changed) =
    sweep rows
      (if is_reached invalidated row then (row.0 ∷ invalidated, true) else (invalidated, changed))

-- The `while` loop. A pass that changes the set adds a task, so one pass more than there are tasks
-- is fuel enough; `none` stands for a lack of it.
unfoldable pub sweeps : ℕ → List String → Option (List String)
unfolding sweep
sweeps zero invalidated = none
sweeps (suc fuel) invalidated =
    let (next, changed) = sweep task_dependencies (invalidated, false) in
    let rest = sweeps fuel next in if changed then rest else some next

abbrev in_order : Option (List String) → Option (List String)
in_order none = none
in_order (some invalidated) = some (select (contains invalidated) task_order)

-- `_dependency_closure`
unfoldable pub dependency_closure : List String → Option (List String)
unfolding sweeps
dependency_closure seeds = in_order (sweeps 6 seeds)

-- `status` is `WAITING_USER` when the flag is set, and `READY` otherwise.
pub record RepairPlan : Type 0 where
  pub run_id : String
  pub waiting_user : Bool
  pub completed_revision_rounds : ℕ
  pub next_revision_round : Option ℕ
  pub invalidated_task_ids : List String
  pub patch_requests : List PatchRequest
  pub clarification_fields : List String

-- One constructor for each `raise`; `no_fuel` is the model's own.
pub data RepairError : Type 0 where
  revise_required revision_limit_exceeded no_target not_waiting answers_empty : RepairError
  no_fuel : RepairError

-- `max_revision_rounds`, by its default.
abbrev pub max_revision_rounds : ℕ
max_revision_rounds = 2

-- `constraints.get(name)`
unfoldable pub field_value : Fields → String → Option Json
field_value end name = none
field_value (field key value rest) name = if key == name then some value else field_value rest name

abbrev value_or : Json → Option Json → Json
value_or default none = default
value_or default (some value) = value

abbrev pub for_coordinator : PatchRequest → Bool
for_coordinator patch = patch.target_agent == "coordinator"

-- `dict.fromkeys(names)`, after the names in `seen`.
unfoldable pub from_keys : List String → List String → List String
from_keys seen [] = []
from_keys seen (name ∷ names) =
    let new = name ∷ from_keys (name ∷ seen) names in
    let old = from_keys seen names in if contains seen name then old else new

-- `{AGENT_TASKS[p.target_agent] for p in patches if p.target_agent in AGENT_TASKS}`
unfoldable pub seeds_of : List PatchRequest → List String
seeds_of [] = []
seeds_of (patch ∷ patches) =
    let rest = seeds_of patches in
    elim (Dict.get agent_tasks patch.target_agent) [ none ↦ rest | some task_id ↦ task_id ∷ rest ]

abbrev pub ready_plan :
    String → ℕ → List PatchRequest → Option (List String) → Result RepairError RepairPlan
ready_plan run_id rounds patches none = err no_fuel
ready_plan run_id rounds patches (some invalidated) = ok (record {
  run_id = run_id;
  waiting_user = false;
  completed_revision_rounds = rounds;
  next_revision_round = some (rounds + 1);
  invalidated_task_ids = invalidated;
  patch_requests = patches;
  clarification_fields = [];
})

-- `str` of a JSON value is an argument.
module _ (str : Json → String) where
  abbrev pub clarification_field : PatchRequest → String
  clarification_field patch =
      str (value_or (string "trip_request") (field_value patch.constraints "field_path"))

  abbrev pub waiting_plan : ReviewArtifact → ℕ → RepairPlan
  waiting_plan review rounds = record {
    run_id = review.run_id;
    waiting_user = true;
    completed_revision_rounds = rounds;
    next_revision_round = none;
    invalidated_task_ids = [];
    patch_requests = review.patch_requests;
    clarification_fields =
        from_keys [] (map clarification_field (select for_coordinator review.patch_requests));
  }

  unfoldable pub plan : ReviewArtifact → ℕ → Result RepairError RepairPlan
  unfolding dependency_closure
  plan review completed_revision_rounds =
      let seeds = seeds_of review.patch_requests in
      if not (is_revise review.verdict) || is_empty review.patch_requests
      then err revise_required
      else if leb max_revision_rounds completed_revision_rounds
      then err revision_limit_exceeded
      else if any_of for_coordinator review.patch_requests
      then ok (waiting_plan review completed_revision_rounds)
      else if is_empty seeds
      then err no_target
      else ready_plan review.run_id completed_revision_rounds review.patch_requests
          (dependency_closure seeds)

abbrev pub resume_seeds : List String → List String
resume_seeds names =
    if all_of (λ name. starts_with name "lodging" || starts_with name "transport") names
    then "mobility_lodging" ∷ []
    else if all_of (λ name. starts_with name "destination") names
    then "destination_intelligence" ∷ []
    else "destination_intelligence" ∷ "mobility_lodging" ∷ []

-- The answers' field names are enough: their values are not read.
unfoldable pub resume_after_clarification : RepairPlan → List String → Result RepairError RepairPlan
unfolding dependency_closure
resume_after_clarification waiting field_names =
    if not waiting.waiting_user
    then err not_waiting
    else if is_empty field_names
    then err answers_empty
    else if leb max_revision_rounds waiting.completed_revision_rounds
    then err revision_limit_exceeded
    else ready_plan waiting.run_id waiting.completed_revision_rounds waiting.patch_requests
        (dependency_closure (resume_seeds field_names))
