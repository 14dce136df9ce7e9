-- ===== src/Harness/Blackboard/Write.antt =====
-- `MemoryBlackboard.write`: when it accepts, what a reader then sees, and what it leaves alone.
use multi_agent_based_intell.Prelude.{
  ℕ, ◌+◌, String, ◌≡◌, refl, inl, inr, none, List, [], ◌∷◌, Result, ok, err, arith, eq_iff, nat_beq,
  string_eq, nat_eq, pair_eq, All, Option-cases, Bool-cases,
}
use multi_agent_based_intell.Prelude.Dict
use multi_agent_based_intell.Prelude.Dict.{Dict, get-put, get-put_self}
use multi_agent_based_intell.Domain.Messaging.{ArtifactRef}
use multi_agent_based_intell.Harness.Blackboard.{
  ArtifactRecord, BoardError, head_key, Board, head_version, check_parent, check_parents, stored,
  write, to_ref, after_parents,
}
use multi_agent_based_intell.Harness.Blackboard.Invariant.{
  IsParent, IsConsistent, IsAccepted, stored-IsConsistent,
}

IsParent-of_check : (b : Board) (r p : String) → check_parent b.records r p ≡ ok tt → IsParent b r p
unfolding check_parent
IsParent-of_check b r p h = elim (Option-cases (Dict.get b.records p)) [
  | inl e ↦ absurd (ground arith)
  | inr (parent, e) ↦ record {
    parent = parent;
    found = e;
    same_run = ground (arith, eq_iff parent.run_id r);
  }
]

check_of_IsParent : (b : Board) (r p : String) → IsParent b r p → check_parent b.records r p ≡ ok tt
unfolding check_parent
check_of_IsParent b r p h = ground (arith, h.found, h.same_run, eq_iff h.parent.run_id r)

parents_of_check :
    (b : Board) (r : String) (ps : List String)
    → check_parents b.records r ps ≡ ok tt
    → All (IsParent b r) ps
unfolding check_parents
parents_of_check b r [] h = tt
parents_of_check b r (p ∷ ps) h =
    (IsParent-of_check b r p (ground arith), parents_of_check b r ps (ground arith))

check_of_parents :
    (b : Board) (r : String) (ps : List String)
    → All (IsParent b r) ps
    → check_parents b.records r ps ≡ ok tt
unfolding check_parents
check_of_parents b r [] h = refl
check_of_parents b r (p ∷ ps) h =
    ground (arith, check_of_IsParent b r p h.0, check_of_parents b r ps h.1)

-- What `write` does: it accepts and stores, or it raises and changes nothing.
pub data Outcome (b : Board) (a : ArtifactRecord) (n : ℕ)
    : Result BoardError ArtifactRef × Board → Type 0 where
  accepts : IsAccepted b a n → Outcome b a n (ok (to_ref a), stored b a)
  rejects : (e : BoardError) → ¬ IsAccepted b a n → Outcome b a n (err e, b)

after_parents-Outcome :
    (b : Board) (a : ArtifactRecord) (n : ℕ) (r : Result BoardError (Unit {0}))
    → check_parents b.records a.run_id a.parent_artifact_ids ≡ r
    → n ≡ head_version b (head_key a)
    → a.version ≡ head_version b (head_key a) + 1
    → Dict.get b.records a.artifact_id ≡ none
    → Outcome b a n (after_parents b a r)
after_parents-Outcome b a n (ok tt) checked head next fresh = accepts (record {
  expected_head = head;
  next_version = next;
  fresh = fresh;
  parents = parents_of_check b a.run_id a.parent_artifact_ids checked;
})
after_parents-Outcome b a n (err e) checked head next fresh =
    rejects e λ ac. ground (arith, check_of_parents b a.run_id a.parent_artifact_ids ac.parents)

-- `write` succeeds exactly when the caller expects the current head version, the new version
-- follows it, the id is unused and every parent is stored in the same run; it then returns the
-- reference and records the Artifact in all three tables. Otherwise it raises and the board is
-- unchanged.
pub write-Outcome : (b : Board) (a : ArtifactRecord) (n : ℕ) → Outcome b a n (write b a n)
unfolding write
write-Outcome b a n = elim (Bool-cases (nat_beq n (head_version b (head_key a)))) [
  | inr stale ↦ rw stale (rejects _ λ ac. ground (arith, ac.expected_head))
  | inl current ↦ elim (Bool-cases (nat_beq a.version (head_version b (head_key a) + 1))) [
    | inr skipped ↦ rw (current, skipped) (rejects _ λ ac. ground (arith, ac.next_version))
    | inl next ↦ elim (Option-cases (Dict.get b.records a.artifact_id)) [
      | inr (old, taken) ↦ rw (current, next, taken) (rejects _ λ ac. ground (arith, ac.fresh))
      | inl fresh ↦
          rw (current, next, fresh)
            (after_parents-Outcome b a n (check_parents b.records a.run_id a.parent_artifact_ids)
              refl (ground arith) (ground arith) fresh)
    ]
  ]
]

module _ (b : Board) (a : ArtifactRecord) (n : ℕ) where
  Outcome-IsConsistent :
      {r : Result BoardError ArtifactRef × Board}
      → Outcome b a n r
      → IsConsistent b
      → IsConsistent r.1
  Outcome-IsConsistent (accepts ac) c = stored-IsConsistent b a ac c
  Outcome-IsConsistent (rejects e no_ac) c = c

-- Every write, accepted or not, keeps the tables consistent.
pub write-IsConsistent :
    (b : Board) (a : ArtifactRecord) (n : ℕ) → IsConsistent b → IsConsistent (write b a n).1
write-IsConsistent b a n = Outcome-IsConsistent b a n (write-Outcome b a n)
