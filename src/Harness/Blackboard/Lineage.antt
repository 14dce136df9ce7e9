-- ===== src/Harness/Blackboard/Lineage.antt =====
-- `MemoryBlackboard.lineage`: it ends, and lists every ancestor once, parents before children.
pub mod Ranks
pub mod Topology
pub mod Trails
use multi_agent_based_intell.Prelude.{
  ℕ, zero, suc, ◌+◌, ◌<◌, String, ◌≡◌, refl, some, List, [], ◌∷◌, ◌++◌, ok, arith, string_eq, All,
  length,
}
use multi_agent_based_intell.Prelude.Dict
use multi_agent_based_intell.Prelude.Dict.{Dict}
use multi_agent_based_intell.Harness.Blackboard.{
  ArtifactRecord, Board, empty_board, write, Trail, visit, lineage,
}
use multi_agent_based_intell.Harness.Blackboard.Invariant.{empty_board-IsConsistent, IsConsistent}
use multi_agent_based_intell.Harness.Blackboard.Write.{write-IsConsistent}
use multi_agent_based_intell.Harness.Blackboard.History.{write_all, write_all-IsConsistent}
use multi_agent_based_intell.Harness.Blackboard.Lineage.Ranks.{
  IsRanked, empty_board-IsRanked, write-IsRanked,
}
use multi_agent_based_intell.Harness.Blackboard.Lineage.Topology.{IsTopological}
use multi_agent_based_intell.Harness.Blackboard.Lineage.Trails.{
  IsListed, IsTrail, itself, each-Visited, IsOpen-parents, visit-Visited, snoc-IsTrail, not_under,
}

abbrev start : Trail
start = record { ordered = []; visited = [] }

-- The outermost call lists its own Artifact last.
visit-start :
    (b : Board) (c : IsConsistent b) (r : IsRanked b) (fuel : ℕ) (i : String) (x : ArtifactRecord)
    → r.rank i < fuel
    → Dict.get b.records i ≡ some x
    → (t : Trail) × (visit fuel b.records i start
        ≡ ok (record { ordered = t.ordered ++ x ∷ []; visited = i ∷ t.visited }))
      × IsTopological [] (t.ordered ++ x ∷ [])
      × All (IsListed b i x.run_id) (t.ordered ++ x ∷ [])
unfolding visit
visit-start b c r zero i x h found = absurd (omega arith)
visit-start b c r (suc fuel) i x h found =
    let empty : IsTrail b c r i x.run_id start = record {
      topological = tt;
      same_ids = λ p. refl;
      listed = tt;
    } in
    let v =
      each-Visited b c r i x.run_id (r.rank i) (visit fuel b.records)
        (λ j s hs os. visit-Visited b c r i x.run_id fuel (r.rank i) j s (omega arith) hs os)
        x.parent_artifact_ids start empty
        (IsOpen-parents b c r i x.run_id i x found refl itself x.parent_artifact_ids (λ p m. m)
          (r.lower i x found) (c.at_id i x found).parents) in
    let t =
      snoc-IsTrail b c r i x.run_id i x v.after found refl itself v.trail v.done
        (not_under b c r i x.run_id (r.rank i) start v.after i v.under (omega arith) refl) in
    (v.after, rw (found, v.returns), t.topological, t.listed)

lineage_lem :
    (b : Board) (i : String) (x : ArtifactRecord)
    → IsConsistent b
    → IsRanked b
    → Dict.get b.records i ≡ some x
    → (line : List ArtifactRecord) × (lineage b i ≡ ok (line ++ x ∷ []))
      × IsTopological [] (line ++ x ∷ [])
      × All (IsListed b i x.run_id) (line ++ x ∷ [])
unfolding lineage
lineage_lem b i x c r found =
    let (t, e, sorted, listed) =
      visit-start b c r (length b.records) i x (r.below i x found) found in
    (t.ordered, rw (found, e), sorted, listed)

write_all-IsRanked :
    (b : Board) (calls : List (ArtifactRecord × ℕ))
    → IsConsistent b
    → IsRanked b
    → IsRanked (write_all b calls)
unfolding write_all
write_all-IsRanked b [] c r = r
write_all-IsRanked b ((a, n) ∷ calls) c r =
    write_all-IsRanked (write b a n).1 calls (write-IsConsistent b a n c) (write-IsRanked b a n c r)

-- On every board that writes to an empty board lead to, the lineage of a stored Artifact ends and
-- succeeds: it lists that Artifact last, every record behind all of its parents and no id twice,
-- and all listed records are stored, of the Artifact's run, and the Artifact or its ancestors.
pub lineage-write_all :
    (calls : List (ArtifactRecord × ℕ)) (i : String) (x : ArtifactRecord)
    → Dict.get (write_all empty_board calls).records i ≡ some x
    → (line : List ArtifactRecord) × (lineage (write_all empty_board calls) i ≡ ok (line ++ x ∷ []))
      × IsTopological [] (line ++ x ∷ [])
      × All (IsListed (write_all empty_board calls) i x.run_id) (line ++ x ∷ [])
lineage-write_all calls i x =
    lineage_lem (write_all empty_board calls) i x
      (write_all-IsConsistent empty_board calls empty_board-IsConsistent)
      (write_all-IsRanked empty_board calls empty_board-IsConsistent empty_board-IsRanked)
