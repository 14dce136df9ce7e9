-- ===== src/Domain/Review.antt =====
-- packages/domain/itinerary.py: the review of candidate plans.
use multi_agent_based_intell.Prelude.{
  ℕ, String, Bool, true, false, not, ◌&&◌, ◌||◌, Option, List, is_empty, contains, string_eq,
  all_of,
}
use multi_agent_based_intell.Prelude.Dict.{Dict, keys}
use multi_agent_based_intell.Domain.Json.{Fields}
use multi_agent_based_intell.Domain.Itinerary.{ScoreBreakdown}

pub data ReviewVerdict : Type 0 where
  pass revise reject : ReviewVerdict

-- `verdict is ReviewVerdict.PASS`
abbrev pub is_pass : ReviewVerdict → Bool
is_pass pass = true
is_pass _ = false

-- `verdict is ReviewVerdict.REVISE`
abbrev pub is_revise : ReviewVerdict → Bool
is_revise revise = true
is_revise _ = false

pub data IssueSeverity : Type 0 where
  warning error critical : IssueSeverity

pub record HardViolation : Type 0 where
  pub code : String
  pub severity : IssueSeverity
  pub plan_id : String
  pub plan_item_id : Option String
  pub evidence_ids : List String
  pub message : String

pub record PatchRequest : Type 0 where
  pub target_agent : String
  pub action : String
  pub plan_id : String
  pub plan_item_id : Option String
  pub constraints : Fields

pub record ReviewArtifact : Type 0 where
  pub artifact_id : String
  pub run_id : String
  pub producer_agent : String
  pub reviewed_plan_ids : List String
  pub verdict : ReviewVerdict
  pub plan_scores : Dict String ScoreBreakdown
  pub hard_violations : List HardViolation
  pub patch_requests : List PatchRequest
  pub created_at : ℕ

-- `set(a) == set(b)`
abbrev pub same_members : List String → List String → Bool
same_members a b = all_of (contains b) a && all_of (contains a) b

-- `verdict_matches_findings` raises nothing.
abbrev pub review_valid : ReviewArtifact → Bool
review_valid review =
    not (
      is_pass review.verdict
      && (not (is_empty review.hard_violations) || not (is_empty review.patch_requests)))
    && not (is_revise review.verdict && is_empty review.patch_requests)
    && same_members (keys review.plan_scores) review.reviewed_plan_ids
