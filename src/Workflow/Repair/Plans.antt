-- ===== src/Workflow/Repair/Plans.antt =====
-- What a repair plan says.
use multi_agent_based_intell.Prelude.{
  ℕ, ◌+◌, ◌≤◌, ◌<◌, String, ◌≡◌, map, select, true, false, not, ◌||◌, none, some, List, [], Result,
  ok, err, any_of, is_empty,
}
use multi_agent_based_intell.Domain.Json.{Json}
use multi_agent_based_intell.Domain.Review.{PatchRequest, ReviewArtifact, ReviewVerdict, is_revise}
use multi_agent_based_intell.Workflow.Repair.{
  clarification_field, from_keys, RepairPlan, RepairError, revise_required, revision_limit_exceeded,
  no_target, not_waiting, answers_empty, for_coordinator, seeds_of, resume_seeds,
}
use multi_agent_based_intell.Workflow.Repair.Least.{IsClosure}

-- A plan that runs in the next round, after fewer than two, and repeats the closure of the seeds.
pub data IsReady (run_id : String) (rounds : ℕ) (patches : List PatchRequest) (seeds : List String)
    : Result RepairError RepairPlan → Type 0 where
  ready :
      (invalidated : List String)
      → rounds < 2
      → IsClosure seeds invalidated
      → IsReady run_id rounds patches seeds (
          ok (record {
            run_id = run_id;
            waiting_user = false;
            completed_revision_rounds = rounds;
            next_revision_round = some (rounds + 1);
            invalidated_task_ids = invalidated;
            patch_requests = patches;
            clarification_fields = [];
          }))

-- A plan that runs nothing and waits for the user.
pub record IsWaiting (str : Json → String) (review : ReviewArtifact) (rounds : ℕ) (q : RepairPlan)
    : Type 0 where
  pub own_run : q.run_id ≡ review.run_id
  pub waits : q.waiting_user ≡ true
  pub rounds_kept : q.completed_revision_rounds ≡ rounds
  pub no_round : q.next_revision_round ≡ none
  pub nothing_invalid : q.invalidated_task_ids ≡ []
  pub patches_kept : q.patch_requests ≡ review.patch_requests
  -- The fields of the coordinator's patches, each once, in the order of the patches.
  pub asks :
      q.clarification_fields
      ≡ from_keys [] (map (clarification_field str) (select for_coordinator review.patch_requests))

-- How a review is planned for: each end with the tests that lead to it.
pub data Planned (str : Json → String) (review : ReviewArtifact) (rounds : ℕ)
    : Result RepairError RepairPlan → Type 0 where
  unfit :
      (not (is_revise review.verdict) || is_empty review.patch_requests) ≡ true
      → Planned str review rounds (err revise_required)
  spent :
      review.verdict ≡ ReviewVerdict.revise
      → is_empty review.patch_requests ≡ false
      → 2 ≤ rounds
      → Planned str review rounds (err revision_limit_exceeded)
  waits :
      (q : RepairPlan)
      → review.verdict ≡ ReviewVerdict.revise
      → is_empty review.patch_requests ≡ false
      → rounds < 2
      → any_of for_coordinator review.patch_requests ≡ true
      → IsWaiting str review rounds q
      → Planned str review rounds (ok q)
  untargeted :
      review.verdict ≡ ReviewVerdict.revise
      → is_empty review.patch_requests ≡ false
      → rounds < 2
      → any_of for_coordinator review.patch_requests ≡ false
      → is_empty (seeds_of review.patch_requests) ≡ true
      → Planned str review rounds (err no_target)
  repairs :
      (q : Result RepairError RepairPlan)
      → review.verdict ≡ ReviewVerdict.revise
      → is_empty review.patch_requests ≡ false
      → any_of for_coordinator review.patch_requests ≡ false
      → is_empty (seeds_of review.patch_requests) ≡ false
      → IsReady review.run_id rounds review.patch_requests (seeds_of review.patch_requests) q
      → Planned str review rounds q

-- How a waiting plan is resumed: each end with the tests that lead to it.
pub data Resumed (waiting : RepairPlan) (names : List String)
    : Result RepairError RepairPlan → Type 0 where
  idle : waiting.waiting_user ≡ false → Resumed waiting names (err not_waiting)
  unanswered :
      waiting.waiting_user ≡ true
      → is_empty names ≡ true
      → Resumed waiting names (err answers_empty)
  spent :
      waiting.waiting_user ≡ true
      → is_empty names ≡ false
      → 2 ≤ waiting.completed_revision_rounds
      → Resumed waiting names (err revision_limit_exceeded)
  resumes :
      (q : Result RepairError RepairPlan)
      → waiting.waiting_user ≡ true
      → is_empty names ≡ false
      → IsReady waiting.run_id waiting.completed_revision_rounds waiting.patch_requests
          (resume_seeds names)
          q
      → Resumed waiting names q
