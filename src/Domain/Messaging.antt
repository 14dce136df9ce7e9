-- ===== src/Domain/Messaging.antt =====
-- packages/domain/messaging.py: the states of tasks, and references to Artifacts.
use multi_agent_based_intell.Prelude.{
  ℕ, String, Bool, true, false, not, ◌&&◌, ◌||◌, Option, none, some, List, ltb, is_empty, is_unique,
  string_eq, [], ◌∷◌, ◌==◌, nat_beq, ◌≡◌, refl, arith, eq_iff, sym, ap, ◌∙◌, if◌then◌else◌,
}

pub data TaskState : Type 0 where
  pending leased running waiting_tool waiting_user validating waiting_retry : TaskState
  succeeded failed cancelled timed_out : TaskState

-- `state is TaskState.SUCCEEDED`
abbrev pub is_succeeded : TaskState → Bool
is_succeeded TaskState.succeeded = true
is_succeeded _ = false

pub record ArtifactRef : Type 0 where
  pub artifact_id : String
  pub run_id : String
  pub artifact_type : String
  pub schema_version : String
  pub version : ℕ
  pub content_hash : String

pub data RunState : Type 0 where
  created parsing researching planning reviewing revising finalizing : RunState
  waiting_user completed partial failed cancelled timed_out : RunState

pub data EventType : Type 0 where
  run_created plan_created task_assigned task_started task_progress tool_call_planned : EventType
  tool_call_completed artifact_published artifact_rejected review_verdict : EventType
  task_retry_scheduled task_failed task_cancelled task_timed_out : EventType
  clarification_requested clarification_resolved run_completed run_partial : EventType
  run_failed run_cancelled run_timed_out : EventType

pub data ClaimStatus : Type 0 where
  verified contradicted unknown : ClaimStatus

-- `status is ClaimStatus.UNKNOWN`
abbrev pub is_unknown_claim : ClaimStatus → Bool
is_unknown_claim ClaimStatus.unknown = true
is_unknown_claim _ = false

pub data Freshness : Type 0 where
  live fresh stale unknown : Freshness

-- `freshness.value`
abbrev pub freshness_value : Freshness → String
freshness_value Freshness.live = "live"
freshness_value Freshness.fresh = "fresh"
freshness_value Freshness.stale = "stale"
freshness_value Freshness.unknown = "unknown"

pub data StoragePolicy : Type 0 where
  memory_only ids_and_metadata allowed_fields full_licensed : StoragePolicy

-- A confidence between 0 and 1 is in ten-thousandths.
pub record Evidence : Type 0 where
  pub evidence_id : String
  pub source_name : String
  pub source_url_or_provider_id : String
  pub provider : String
  pub retrieved_at : ℕ
  pub valid_until : Option ℕ
  pub field_paths : List String
  pub freshness : Freshness
  pub confidence : ℕ
  pub storage_policy : StoragePolicy

abbrev texts_equal : List String → List String → Bool
texts_equal [] [] = true
texts_equal (a ∷ more) (b ∷ rest) = a == b && texts_equal more rest
texts_equal _ _ = false

abbrev ends_equal : Option ℕ → Option ℕ → Bool
ends_equal none none = true
ends_equal (some a) (some b) = nat_beq a b
ends_equal _ _ = false

abbrev policy_value : StoragePolicy → String
policy_value memory_only = "memory_only"
policy_value ids_and_metadata = "ids_and_metadata"
policy_value allowed_fields = "allowed_fields"
policy_value full_licensed = "full_licensed"

-- Equality of two pieces of evidence, which pydantic takes field by field.
abbrev pub same_evidence : Evidence → Evidence → Bool
same_evidence a b =
    a.evidence_id == b.evidence_id
    && a.source_name == b.source_name
    && a.source_url_or_provider_id == b.source_url_or_provider_id
    && a.provider == b.provider
    && nat_beq a.retrieved_at b.retrieved_at
    && ends_equal a.valid_until b.valid_until
    && texts_equal a.field_paths b.field_paths
    && freshness_value a.freshness == freshness_value b.freshness
    && nat_beq a.confidence b.confidence
    && policy_value a.storage_policy == policy_value b.storage_policy

texts_equal_sound : (a b : List String) → texts_equal a b ≡ true → a ≡ b
texts_equal_sound [] [] h = refl
texts_equal_sound [] (b ∷ rest) h = absurd (cc)
texts_equal_sound (a ∷ more) [] h = absurd (cc)
texts_equal_sound (a ∷ more) (b ∷ rest) h = ground (arith, eq_iff a b, texts_equal_sound more rest)

ends_equal_sound : (a b : Option ℕ) → ends_equal a b ≡ true → a ≡ b
ends_equal_sound none none h = refl
ends_equal_sound none (some b) h = absurd (cc)
ends_equal_sound (some a) none h = absurd (cc)
ends_equal_sound (some a) (some b) h = ground arith

of_freshness_value : String → Freshness
of_freshness_value text =
    if text == "live"
    then Freshness.live
    else if text == "fresh"
    then Freshness.fresh
    else if text == "stale"
    then Freshness.stale
    else Freshness.unknown

of_freshness_value_lem : (a : Freshness) → of_freshness_value (freshness_value a) ≡ a
unfolding of_freshness_value
of_freshness_value_lem Freshness.live = refl
of_freshness_value_lem Freshness.fresh = refl
of_freshness_value_lem Freshness.stale = refl
of_freshness_value_lem Freshness.unknown = refl

freshness_sound : (a b : Freshness) → (freshness_value a == freshness_value b) ≡ true → a ≡ b
freshness_sound a b h =
    sym (of_freshness_value_lem a)
    ∙ ap of_freshness_value ((eq_iff (freshness_value a) (freshness_value b)).0 h)
    ∙ of_freshness_value_lem b

of_policy_value : String → StoragePolicy
of_policy_value text =
    if text == "memory_only"
    then memory_only
    else if text == "ids_and_metadata"
    then ids_and_metadata
    else if text == "allowed_fields"
    then allowed_fields
    else full_licensed

of_policy_value_lem : (a : StoragePolicy) → of_policy_value (policy_value a) ≡ a
unfolding of_policy_value
of_policy_value_lem memory_only = refl
of_policy_value_lem ids_and_metadata = refl
of_policy_value_lem allowed_fields = refl
of_policy_value_lem full_licensed = refl

policy_sound : (a b : StoragePolicy) → (policy_value a == policy_value b) ≡ true → a ≡ b
policy_sound a b h =
    sym (of_policy_value_lem a)
    ∙ ap of_policy_value ((eq_iff (policy_value a) (policy_value b)).0 h)
    ∙ of_policy_value_lem b

pub same_evidence_sound : (a b : Evidence) → same_evidence a b ≡ true → a ≡ b
same_evidence_sound a b h = ground (
  arith,
  eq_iff a.evidence_id b.evidence_id,
  eq_iff a.source_name b.source_name,
  eq_iff a.source_url_or_provider_id b.source_url_or_provider_id,
  eq_iff a.provider b.provider,
  ends_equal_sound a.valid_until b.valid_until,
  texts_equal_sound a.field_paths b.field_paths,
  freshness_sound a.freshness b.freshness,
  policy_sound a.storage_policy b.storage_policy,
)

abbrev ends_after : ℕ → Option ℕ → Bool
ends_after start none = true
ends_after start (some end) = ltb start end

-- `validate_evidence_window_and_paths` raises nothing.
abbrev pub evidence_valid : Evidence → Bool
evidence_valid evidence =
    not (is_empty evidence.field_paths) && ends_after evidence.retrieved_at evidence.valid_until

-- The fields of `Claim` that the validators read.

pub record Claim : Type 0 where
  pub claim_id : String
  pub status : ClaimStatus
  pub evidence_ids : List String
  pub required_hard_constraint : Bool

-- `resolved_claims_have_evidence` raises nothing.
abbrev pub claim_valid : Claim → Bool
claim_valid claim =
    is_unique claim.evidence_ids
    && (is_unknown_claim claim.status || not (is_empty claim.evidence_ids))
