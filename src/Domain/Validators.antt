-- ===== src/Domain/Validators.antt =====
-- packages/domain/validators.py: what the validators report. An issue's path is a list of steps:
-- `days[1].items[2].place_id` is `days` at 1, `items` at 2, `place_id`.
pub mod Budget
pub mod Times
pub mod Opening
pub mod References
pub mod Report
pub mod Samples
mod Tests
use multi_agent_based_intell.Prelude.{
  ℕ, String, Bool, true, false, not, List, any_of, select, ◌++◌, [], ◌∷◌, if◌then◌else◌,
}

pub data ValidationCode : Type 0 where
  budget_exceeded budget_unverifiable budget_total_mismatch currency_mismatch : ValidationCode
  item_outside_daily_window item_date_mismatch item_overlap : ValidationCode
  activity_time_exceeded opening_hours_conflict opening_hours_unknown : ValidationCode
  coordinate_system_mismatch missing_place_reference missing_route_reference : ValidationCode
  route_endpoint_mismatch missing_claim_reference missing_evidence_reference : ValidationCode
  unknown_hard_constraint : ValidationCode

pub data ValidationSeverity : Type 0 where
  warning error : ValidationSeverity

pub data PathStep : Type 0 where
  field : String → PathStep
  item_of : String → ℕ → PathStep

pub record ValidationIssue : Type 0 where
  pub code : ValidationCode
  pub severity : ValidationSeverity
  pub message : String
  pub path : List PathStep
  pub related_ids : List String

abbrev pub is_error : ValidationIssue → Bool
is_error i = elim (i.severity) [ error ↦ true | warning ↦ false ]

-- `ValidationReport.passed`
unfoldable pub passed : List ValidationIssue → Bool
passed issues = not (any_of is_error issues)

-- `ValidationReport.errors`
abbrev pub errors : List ValidationIssue → List ValidationIssue
errors issues = select is_error issues

-- `_issue` with its default severity.
abbrev pub issue : ValidationCode → String → List PathStep → List String → ValidationIssue
issue code message path related_ids = record {
  code = code;
  severity = error;
  message = message;
  path = path;
  related_ids = related_ids;
}

-- `if test: issues.append(...)`
abbrev pub report_if : Bool → ValidationIssue → List ValidationIssue → List ValidationIssue
report_if test new issues = if test then issues ++ (new ∷ []) else issues
