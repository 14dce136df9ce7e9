-- ===== src/Harness/Blackboard/Lineage/Ranks.antt =====
-- A rank under which parents are older than their children, on every board that writes lead to.
use multi_agent_based_intell.Prelude.{
  ℕ, ◌<◌, String, ◌≡◌, inl, inr, false, some, List, [], ◌∷◌, Result, arith, eq_iff, ◌==◌, string_eq,
  All, Bool-cases, subst₂, length, if◌then◌else◌,
}
use multi_agent_based_intell.Prelude.Dict
use multi_agent_based_intell.Prelude.Dict.{Dict, get-put, length-put_new, length-put-le}
use multi_agent_based_intell.Domain.Messaging.{ArtifactRef}
use multi_agent_based_intell.Harness.Blackboard.{
  ArtifactRecord, BoardError, Board, empty_board, stored, write,
}
use multi_agent_based_intell.Harness.Blackboard.Invariant.{IsParent, IsAccepted, IsConsistent}
use multi_agent_based_intell.Harness.Blackboard.Write.{Outcome, accepts, rejects, write-Outcome}

-- Parents have a lower rank than their children, and ranks are bounded by the number of records.
pub record IsRanked (b : Board) : Type 0 where
  pub rank : String → ℕ
  pub below :
      (i : String) (a : ArtifactRecord) → Dict.get b.records i ≡ some a → rank i < length b.records
  pub lower :
      (i : String) (a : ArtifactRecord)
      → Dict.get b.records i ≡ some a
      → All (λ p. rank p < rank i) a.parent_artifact_ids

pub empty_board-IsRanked : IsRanked empty_board
unfolding Dict.get
empty_board-IsRanked = record {
  rank = λ i. 0;
  below = λ i a h. absurd (cc);
  lower = λ i a h. absurd (cc);
}

module _ (b : Board) (a : ArtifactRecord) {n : ℕ} (ac : IsAccepted b a n) (r : IsRanked b) where
  -- The new Artifact ranks above all others.
  new_rank : String → ℕ
  new_rank i = if a.artifact_id == i then length b.records else r.rank i

  parents_lower :
      (ps : List String)
      → All (IsParent b a.run_id) ps
      → All (λ p. new_rank p < new_rank a.artifact_id) ps
  unfolding new_rank
  parents_lower [] h = tt
  parents_lower (p ∷ ps) h = (
    ground (
      arith,
      h.0.found,
      r.below p h.0.parent h.0.found,
      ac.fresh,
      eq_iff a.artifact_id p,
      eq_iff a.artifact_id a.artifact_id,
    ),
    parents_lower ps h.1,
  )

  still_lower :
      (i run_id : String) (ps : List String)
      → (a.artifact_id == i) ≡ false
      → All (λ p. r.rank p < r.rank i) ps
      → All (IsParent b run_id) ps
      → All (λ p. new_rank p < new_rank i) ps
  unfolding new_rank
  still_lower i run_id [] ne h parents = tt
  still_lower i run_id (p ∷ ps) ne h parents = (
    ground (arith, parents.0.found, ac.fresh, eq_iff a.artifact_id p, h.0),
    still_lower i run_id ps ne h.1 parents.1,
  )

  record-stored :
      (i : String)
      → Dict.get (stored b a).records i
        ≡ (if a.artifact_id == i then some a else Dict.get b.records i)
  record-stored i = get-put b.records a.artifact_id i a

  stored-below :
      (i : String) (x : ArtifactRecord)
      → Dict.get (stored b a).records i ≡ some x
      → new_rank i < length (stored b a).records
  unfolding new_rank
  stored-below i x h =
      ground
        (arith, length-put_new b.records a.artifact_id a ac.fresh, record-stored i, r.below i x)

  module _ (c : IsConsistent b) where
    stored-lower :
        (i : String) (x : ArtifactRecord)
        → Dict.get (stored b a).records i ≡ some x
        → All (λ p. new_rank p < new_rank i) x.parent_artifact_ids
    stored-lower i x h = elim (Bool-cases (a.artifact_id == i)) [
      | inl same ↦
          let is_new : a ≡ x = ground (arith, record-stored i) in
          subst₂ {B = ArtifactRecord}
            (λ j y. All (λ p. new_rank p < new_rank j) y.parent_artifact_ids)
            ((eq_iff a.artifact_id i).0 same) is_new
            (parents_lower a.parent_artifact_ids ac.parents)
      | inr other ↦
          let old : Dict.get b.records i ≡ some x = ground (arith, record-stored i) in
          still_lower i x.run_id x.parent_artifact_ids other (r.lower i x old)
            (c.at_id i x old).parents
    ]

    stored-IsRanked : IsRanked (stored b a)
    stored-IsRanked = record { rank = new_rank; below = stored-below; lower = stored-lower }

pub write-IsRanked :
    (b : Board) (a : ArtifactRecord) (n : ℕ)
    → IsConsistent b
    → IsRanked b
    → IsRanked (write b a n).1
write-IsRanked b a n c r = of_Outcome (write b a n) (write-Outcome b a n)
  where
    of_Outcome : (o : Result BoardError ArtifactRef × Board) → Outcome b a n o → IsRanked o.1
    of_Outcome _ (accepts ac) = stored-IsRanked b a ac r c
    of_Outcome _ (rejects e no_ac) = r
