-- ===== src/Workflow/Repair/Tests.antt =====
-- The repair planner on small reviews, and its theorems there.
use multi_agent_based_intell.Prelude.{
  String, ◌≡◌, refl, true, false, none, some, List, [], ◌∷◌, ok, string_eq,
}
use multi_agent_based_intell.Prelude.Dict
use multi_agent_based_intell.Domain.Review.{ReviewVerdict, ReviewArtifact}
use multi_agent_based_intell.Domain.Json.{Json, string, end}
use multi_agent_based_intell.Workflow.Repair.{
  RepairPlan, sweep, sweeps, dependency_closure, plan, seeds_of,
}
use multi_agent_based_intell.Prelude.Dict.{Dict}
use multi_agent_based_intell.Harness.Blackboard.{
  ArtifactRecord, empty_board, write, check_parents, get, latest,
}
use multi_agent_based_intell.Workflow.Repair.Execution.{
  RepairHandler, execute, run_tasks, upstream_refs,
}
use multi_agent_based_intell.Workflow.Repair.Execution.Publishing.{Published, execute-Published}
use multi_agent_based_intell.Workflow.Repair.Least.{IsClosure, dependency_closure-IsClosure}

abbrev str : Json → String
str (string text) = text
str value = "value"

abbrev routes_down : List String
routes_down = "build_route_matrix" ∷ "itinerary_planning" ∷ "critic_review" ∷ []

closure_of_routes : dependency_closure ("build_route_matrix" ∷ []) ≡ some routes_down
unfolding dependency_closure sweeps sweep
closure_of_routes = refl

abbrev review : ReviewArtifact
review = record {
  artifact_id = "review";
  run_id = "run";
  producer_agent = "critic";
  reviewed_plan_ids = [];
  verdict = ReviewVerdict.revise;
  plan_scores = [];
  hard_violations = [];
  patch_requests =
      record {
        target_agent = "itinerary_planner";
        action = "shorten";
        plan_id = "plan";
        plan_item_id = none;
        constraints = end;
      }
      ∷ [];
  created_at = 0;
}

abbrev second_round : RepairPlan
second_round = record {
  run_id = "run";
  waiting_user = false;
  completed_revision_rounds = 1;
  next_revision_round = some 2;
  invalidated_task_ids = "itinerary_planning" ∷ "critic_review" ∷ [];
  patch_requests = review.patch_requests;
  clarification_fields = [];
}

plan_of_review : plan str review 1 ≡ ok second_round
unfolding plan dependency_closure sweeps sweep seeds_of Dict.get
plan_of_review = refl

abbrev waiting : RepairPlan
waiting = record {
  run_id = "run";
  waiting_user = true;
  completed_revision_rounds = 1;
  next_revision_round = none;
  invalidated_task_ids = [];
  patch_requests = [];
  clarification_fields = "lodging.area" ∷ [];
}

dependency_closure-IsClosure_example :
    (result : List String) × (dependency_closure ("build_route_matrix" ∷ []) ≡ some result)
    × IsClosure ("build_route_matrix" ∷ []) result
dependency_closure-IsClosure_example = dependency_closure-IsClosure ("build_route_matrix" ∷ [])

abbrev artifact : String → String → String → ArtifactRecord
artifact artifact_id task_id artifact_type = record {
  artifact_id = artifact_id;
  run_id = "run";
  task_id = task_id;
  artifact_type = artifact_type;
  schema_version = "1.0";
  version = 1;
  producer_agent = "agent";
  parent_artifact_ids = [];
  content_hash = "hash";
  payload = end;
  created_at = 0;
}

abbrev lodging : ArtifactRecord
lodging = artifact "lodging" "mobility_lodging" "mobility_lodging"

abbrev handlers : Dict String RepairHandler
handlers = ("mobility_lodging", λ context. lodging) ∷ []

-- The second task has no handler.
abbrev resumed : RepairPlan
resumed = record {
  run_id = "run";
  waiting_user = false;
  completed_revision_rounds = 1;
  next_revision_round = some 2;
  invalidated_task_ids = "mobility_lodging" ∷ "build_route_matrix" ∷ [];
  patch_requests = [];
  clarification_fields = [];
}

lodging_published : (execute handlers resumed empty_board).1.records ≡ ("lodging", lodging) ∷ []
unfolding execute run_tasks upstream_refs latest get write check_parents Dict.get Dict.put
lodging_published = refl

execute-Published_example :
    Published "run" empty_board
      ("mobility_lodging" ∷ "build_route_matrix" ∷ [])
      (execute handlers resumed empty_board)
execute-Published_example = execute-Published handlers resumed empty_board
