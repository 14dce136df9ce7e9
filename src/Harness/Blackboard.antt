-- ===== src/Harness/Blackboard.antt =====
-- packages/harness/blackboard.py: `ArtifactRecord` and `MemoryBlackboard`. Each method runs under
-- the board's lock, so a method is one step on the three tables.
pub mod Invariant
mod Tests
pub mod Write
pub mod History
pub mod Lineage
use multi_agent_based_intell.Prelude.{
  pair_eq, ℕ, zero, suc, ◌+◌, String, not, ◌||◌, Option, none, some, List, [], ◌∷◌, ◌++◌, Result,
  ok, err, ◌>>=◌, nat_beq, ◌==◌, string_eq, nat_eq, contains, is_unique, if◌then◌else◌, length,
}
use multi_agent_based_intell.Prelude.Dict
use multi_agent_based_intell.Prelude.Dict.{Dict}
use multi_agent_based_intell.Domain.Json.{Fields}
use multi_agent_based_intell.Domain.Messaging.{ArtifactRef}

pub record ArtifactRecord : Type 0 where
  pub artifact_id : String
  pub run_id : String
  pub task_id : String
  pub artifact_type : String
  pub schema_version : String
  pub version : ℕ
  pub producer_agent : String
  pub parent_artifact_ids : List String
  pub content_hash : String
  pub payload : Fields
  pub created_at : ℕ

-- One constructor for each `raise`, and `missing_key` for a failed subscript. `too_deep` is the
-- model's own: the recursion of `lineage` ran out of fuel.
pub data BoardError : Type 0 where
  duplicate_parents own_parent wrong_hash : BoardError
  version_conflict : (actual : ℕ) → BoardError
  artifact_exists : BoardError
  parent_missing parent_crosses_runs artifact_missing : String → BoardError
  missing_key too_deep : BoardError

-- `artifact_content_hash`: json.dumps and SHA-256 are an argument.
module _ (artifact_content_hash : Fields → String) where
  -- `hash_and_parents_are_valid`
  unfoldable pub validate : ArtifactRecord → Result BoardError ArtifactRecord
  validate a =
      if not (is_unique a.parent_artifact_ids)
      then err duplicate_parents
      else if contains a.parent_artifact_ids a.artifact_id
      then err own_parent
      else if not (a.content_hash == artifact_content_hash a.payload)
      then err wrong_hash
      else ok a

  unfoldable pub create :
      (artifact_id run_id task_id artifact_type : String) (version : ℕ) (producer_agent : String)
      (payload : Fields) (created_at : ℕ) (parent_artifact_ids : List String)
      (schema_version : String)
      → Result BoardError ArtifactRecord
  unfolding validate
  create artifact_id run_id task_id artifact_type version producer_agent payload created_at
        parent_artifact_ids schema_version =
      validate (record {
        artifact_id = artifact_id;
        run_id = run_id;
        task_id = task_id;
        artifact_type = artifact_type;
        schema_version = schema_version;
        version = version;
        producer_agent = producer_agent;
        parent_artifact_ids = parent_artifact_ids;
        content_hash = artifact_content_hash payload;
        payload = payload;
        created_at = created_at;
      })

abbrev pub to_ref : ArtifactRecord → ArtifactRef
to_ref a = record {
  artifact_id = a.artifact_id;
  run_id = a.run_id;
  artifact_type = a.artifact_type;
  schema_version = a.schema_version;
  version = a.version;
  content_hash = a.content_hash;
}

-- (run_id, task_id, artifact_type)
abbrev pub HeadKey : Type 0
HeadKey = String × (String × String)

abbrev pub head_key : ArtifactRecord → HeadKey
head_key a = (a.run_id, (a.task_id, a.artifact_type))

pub record Board : Type 0 where
  pub records : Dict String ArtifactRecord
  pub logical : Dict (HeadKey × ℕ) String
  pub heads : Dict HeadKey ℕ

abbrev pub empty_board : Board
empty_board = record { records = []; logical = []; heads = [] }

-- `self._heads.get(head_key, 0)`
abbrev pub or_zero : Option ℕ → ℕ
or_zero none = 0
or_zero (some n) = n

abbrev pub head_version : Board → HeadKey → ℕ
head_version b k = or_zero (Dict.get b.heads k)

pub check_parent : Dict String ArtifactRecord → String → String → Result BoardError (Unit {0})
check_parent records run_id parent_id = elim (Dict.get records parent_id) [
  | none ↦ err (parent_missing parent_id)
  | some parent ↦ if parent.run_id == run_id then ok tt else err (parent_crosses_runs parent_id)
]

-- The loop over `parent_artifact_ids`.
unfoldable pub check_parents :
    Dict String ArtifactRecord → String → List String → Result BoardError (Unit {0})
unfolding check_parent
check_parents records run_id [] = ok tt
check_parents records run_id (p ∷ ps) =
    check_parent records run_id p >>= λ _. check_parents records run_id ps

abbrev pub stored : Board → ArtifactRecord → Board
stored b a = record {
  records = Dict.put b.records a.artifact_id a;
  logical = Dict.put b.logical (head_key a, a.version) a.artifact_id;
  heads = Dict.put b.heads (head_key a) a.version;
}

abbrev after_parents :
    Board → ArtifactRecord → Result BoardError (Unit {0}) → Result BoardError ArtifactRef × Board
after_parents b a (err e) = (err e, b)
after_parents b a (ok _) = (ok (to_ref a), stored b a)

unfoldable pub write : Board → ArtifactRecord → ℕ → Result BoardError ArtifactRef × Board
write b a expected_latest_version =
    let current = head_version b (head_key a) in
    if not (nat_beq expected_latest_version current) || not (nat_beq a.version (current + 1))
    then (err (version_conflict current), b)
    else if Dict.has b.records a.artifact_id
    then (err artifact_exists, b)
    else after_parents b a (check_parents b.records a.run_id a.parent_artifact_ids)

abbrev subscript : Option ArtifactRecord → Result BoardError (Option ArtifactRecord)
subscript none = err missing_key
subscript (some a) = ok (some a)

unfoldable pub get : Board → HeadKey → ℕ → Result BoardError (Option ArtifactRecord)
get b k version = elim (Dict.get b.logical (k, version)) [
  | none ↦ ok none
  | some artifact_id ↦ subscript (Dict.get b.records artifact_id)
]

unfoldable pub latest : Board → HeadKey → Result BoardError (Option ArtifactRecord)
latest b k = elim (Dict.get b.heads k) [ none ↦ ok none | some version ↦ get b k version ]

-- The local variables of `lineage`.
pub record Trail : Type 0 where
  pub ordered : List ArtifactRecord
  pub visited : List String

module _ {ℓ} {T : Type ℓ} where
  pub visit_each : (String → T → Result BoardError T) → List String → T → Result BoardError T
  visit_each f [] t = ok t
  visit_each f (p ∷ ps) t = f p t >>= visit_each f ps

pub visit : ℕ → Dict String ArtifactRecord → String → Trail → Result BoardError Trail
visit zero records current_id t = err too_deep
visit (suc fuel) records current_id t =
    let enter : Result BoardError Trail = elim (Dict.get records current_id) [
      | none ↦ err missing_key
      | some current ↦ visit_each (visit fuel records) current.parent_artifact_ids t >>= λ t'.
          ok (record { ordered = t'.ordered ++ current ∷ []; visited = current_id ∷ t'.visited })
    ] in
    if contains t.visited current_id then ok t else enter

unfoldable pub lineage : Board → String → Result BoardError (List ArtifactRecord)
unfolding visit visit_each
lineage b artifact_id =
    if Dict.has b.records artifact_id
    then (visit (length b.records) b.records artifact_id (record { ordered = []; visited = [] })
        >>= λ t. ok t.ordered)
    else err (artifact_missing artifact_id)
