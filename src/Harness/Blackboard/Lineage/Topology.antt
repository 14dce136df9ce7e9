-- ===== src/Harness/Blackboard/Lineage/Topology.antt =====
-- Lists of records in which parents stand before their children.
use multi_agent_based_intell.Prelude.{
  String, ◌≡◌, true, false, ◌||◌, List, [], ◌∷◌, ◌++◌, map, arith, string_eq, contains, All,
}
use multi_agent_based_intell.Harness.Blackboard.{ArtifactRecord}

-- Each record stands behind its parents, once, after the records named in `seen`.
abbrev pub IsTopological : List String → List ArtifactRecord → Type 0
IsTopological seen [] = Unit
IsTopological seen (a ∷ line) =
    All (λ p. contains seen p ≡ true) a.parent_artifact_ids
    × (contains seen a.artifact_id ≡ false)
    × IsTopological (a.artifact_id ∷ seen) line

abbrev pub ids : List ArtifactRecord → List String
ids line = map (λ a. a.artifact_id) line

pub All-seen :
    (x : String) (xs seen ps : List String)
    → All (λ p. (contains (x ∷ xs) p || contains seen p) ≡ true) ps
    → All (λ p. (contains xs p || contains (x ∷ seen) p) ≡ true) ps
All-seen x xs seen [] h = tt
All-seen x xs seen (p ∷ ps) h = (ground arith, All-seen x xs seen ps h.1)

pub All-nil :
    (seen ps : List String)
    → All (λ p. (contains [] p || contains seen p) ≡ true) ps
    → All (λ p. contains seen p ≡ true) ps
All-nil seen [] h = tt
All-nil seen (p ∷ ps) h = (h.0, All-nil seen ps h.1)

pub IsTopological-snoc :
    (seen : List String) (line : List ArtifactRecord) (a : ArtifactRecord)
    → IsTopological seen line
    → All (λ p. (contains (ids line) p || contains seen p) ≡ true) a.parent_artifact_ids
    → (contains (ids line) a.artifact_id || contains seen a.artifact_id) ≡ false
    → IsTopological seen (line ++ a ∷ [])
IsTopological-snoc seen [] a t h fresh = (All-nil seen a.parent_artifact_ids h, fresh, tt)
IsTopological-snoc seen (x ∷ line) a t h fresh = (
  t.0,
  t.1,
  IsTopological-snoc (x.artifact_id ∷ seen) line a t.2
      (All-seen x.artifact_id (ids line) seen a.parent_artifact_ids h) (ground arith),
)
