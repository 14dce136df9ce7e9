-- ===== src/Harness/Blackboard/History.antt =====
-- What readers of a `MemoryBlackboard` see over a series of writes, in the order in which the
-- writers obtained the lock.
use multi_agent_based_intell.Prelude.{
  ℕ, ◌+◌, ◌≤◌, String, ◌≡◌, inl, inr, false, some, List, [], ◌∷◌, Result, ok, err, arith, eq_iff,
  string_eq, nat_eq, pair_eq, pair_beq, pair_beq_iff, Option-cases, Bool-cases, subst₂,
  if◌then◌else◌,
}
use multi_agent_based_intell.Prelude.Dict
use multi_agent_based_intell.Prelude.Dict.{Dict, get-put, get-put_self}
use multi_agent_based_intell.Domain.Messaging.{ArtifactRef}
use multi_agent_based_intell.Harness.Blackboard.{
  ArtifactRecord, BoardError, version_conflict, HeadKey, head_key, Board, head_version, stored,
  write, get, latest,
}
use multi_agent_based_intell.Harness.Blackboard.Invariant.{
  IsConsistent, IsAccepted, index-stored, record-stored,
}
use multi_agent_based_intell.Harness.Blackboard.Write.{
  Outcome, accepts, rejects, write-Outcome, write-IsConsistent,
}

-- The calls of `write` in the order of their turns, each with its expected version. A call that
-- raises ends only its own caller.
unfoldable pub write_all : Board → List (ArtifactRecord × ℕ) → Board
write_all b [] = b
write_all b ((a, n) ∷ calls) = write_all (write b a n).1 calls

pub write_all-IsConsistent :
    (b : Board) (calls : List (ArtifactRecord × ℕ))
    → IsConsistent b
    → IsConsistent (write_all b calls)
unfolding write_all
write_all-IsConsistent b [] c = c
write_all-IsConsistent b ((a, n) ∷ calls) c =
    write_all-IsConsistent (write b a n).1 calls (write-IsConsistent b a n c)

get-indexed :
    (b : Board) (k : HeadKey) (v : ℕ) (i : String) (x : ArtifactRecord)
    → Dict.get b.logical (k, v) ≡ some i
    → Dict.get b.records i ≡ some x
    → get b k v ≡ ok (some x)
unfolding get
get-indexed b k v i x e f = ground arith

-- In a consistent board every version from 1 to the head can be read: the read returns an Artifact
-- of that key and that version.
pub get-below_head :
    (b : Board) (k : HeadKey) (v : ℕ)
    → IsConsistent b
    → 1 ≤ v
    → v ≤ head_version b k
    → (x : ArtifactRecord) × (get b k v ≡ ok (some x)) × (head_key x ≡ k) × (x.version ≡ v)
get-below_head b k v c low high =
    let (i, e) = c.no_gap k v low high in
    let h = c.at_version k v i e in
    (h.artifact, get-indexed b k v i h.artifact e h.found, h.same_key, h.same_version)

index-le_head :
    (b : Board) (k : HeadKey) (v : ℕ) (i : String)
    → IsConsistent b
    → Dict.get b.logical (k, v) ≡ some i
    → v ≤ head_version b k
index-le_head b k v i c e =
    let h = c.at_version k v i e in
    subst₂ (λ key n. n ≤ head_version b key) h.same_key h.same_version
      (c.at_id i h.artifact h.found).not_ahead

module _ (b : Board) (a : ArtifactRecord) {n : ℕ} (ac : IsAccepted b a n) (c : IsConsistent b) where
  -- An indexed version is not the one that is being written.
  index-ne_new :
      (k : HeadKey) (v : ℕ) (i : String)
      → Dict.get b.logical (k, v) ≡ some i
      → pair_beq (head_key a, a.version) (k, v) ≡ false
  index-ne_new k v i e =
      ground (arith, index-le_head b k v i c e, ac.next_version, pair_beq_iff (head_key a) k)

  get-stored_old :
      (k : HeadKey) (v : ℕ) (x : ArtifactRecord)
      → get b k v ≡ ok (some x)
      → get (stored b a) k v ≡ ok (some x)
  get-stored_old k v x h = elim (Option-cases (Dict.get b.logical (k, v))) [
    | inl e ↦ absurd (unfold get in ground arith)
    | inr (i, e) ↦
        let s = c.at_version k v i e in
        get-indexed (stored b a) k v i x
          (ground (arith, index-stored b a ac c k v, index-ne_new k v i e))
          (unfold get in
            ground (arith, record-stored b a ac c i, eq_iff a.artifact_id i, ac.fresh, s.found))
  ]

  get-stored_new : get (stored b a) (head_key a) a.version ≡ ok (some a)
  get-stored_new =
      get-indexed (stored b a) (head_key a) a.version a.artifact_id a
        (get-put_self b.logical (head_key a, a.version) a.artifact_id)
        (get-put_self b.records a.artifact_id a)

  latest-stored_self : latest (stored b a) (head_key a) ≡ ok (some a)
  unfolding latest
  latest-stored_self = ground (arith, get-stored_new, get-put_self b.heads (head_key a) a.version)

  latest-stored_ne :
      (k : HeadKey) → pair_beq (head_key a) k ≡ false → latest (stored b a) k ≡ latest b k
  unfolding latest
  latest-stored_ne k ne = elim (Option-cases (Dict.get b.heads k)) [
    | inl e ↦ ground (arith, get-put b.heads (head_key a) k a.version)
    | inr (v, e) ↦
        let (x, found, _, _) = get-below_head b k v c (c.heads_positive k v e) (ground arith) in
        ground (arith, get-put b.heads (head_key a) k a.version, found, get-stored_old k v x found)
  ]

-- A published version is immutable: whatever writes follow, accepted or not, and in whatever order
-- their writers come, a read of that version returns the same Artifact.
pub get-write_all :
    (b : Board) (calls : List (ArtifactRecord × ℕ)) (k : HeadKey) (v : ℕ) (x : ArtifactRecord)
    → IsConsistent b
    → get b k v ≡ ok (some x)
    → get (write_all b calls) k v ≡ ok (some x)
unfolding write_all
get-write_all b [] k v x c h = h
get-write_all b ((a, n) ∷ calls) k v x c h =
    get-write_all (write b a n).1 calls k v x (write-IsConsistent b a n c)
      (get-write (write b a n) (write-Outcome b a n))
  where
    get-write :
        (r : Result BoardError ArtifactRef × Board) → Outcome b a n r → get r.1 k v ≡ ok (some x)
    get-write _ (accepts ac) = get-stored_old b a ac c k v x h
    get-write _ (rejects e no_ac) = h

-- After an accepted write `latest` returns the new Artifact for its own key, and for every other
-- key what it returned before.
pub latest-write :
    (b : Board) (a : ArtifactRecord) (n : ℕ) (k : HeadKey)
    → IsConsistent b
    → IsAccepted b a n
    → latest (write b a n).1 k ≡ (if pair_beq (head_key a) k then ok (some a) else latest b k)
latest-write b a n k c ac = of_Outcome (write b a n) (write-Outcome b a n)
  where
    of_Outcome :
        (r : Result BoardError ArtifactRef × Board)
        → Outcome b a n r
        → latest r.1 k ≡ (if pair_beq (head_key a) k then ok (some a) else latest b k)
    of_Outcome _ (rejects e no_ac) = absurd (no_ac ac)
    of_Outcome _ (accepts ac') = elim (Bool-cases (pair_beq (head_key a) k)) [
      | inl same ↦ rw (same, ← (pair_beq_iff (head_key a) k).0 same) (latest-stored_self b a ac' c)
      | inr other ↦ rw other (latest-stored_ne b a ac' c k other)
    ]

-- Of two writers that expect the same version of one head the second loses: its write raises a
-- conflict that names the version now at the head, and changes nothing.
pub write_conflict :
    (b : Board) (a a' : ArtifactRecord) (n : ℕ)
    → IsAccepted b a n
    → head_key a' ≡ head_key a
    → write (write b a n).1 a' n ≡ (err (version_conflict (n + 1)), (write b a n).1)
write_conflict b a a' n ac same = of_Outcome (write b a n) (write-Outcome b a n)
  where
    of_Outcome :
        (r : Result BoardError ArtifactRef × Board)
        → Outcome b a n r
        → write r.1 a' n ≡ (err (version_conflict (n + 1)), r.1)
    of_Outcome _ (rejects e no_ac) = absurd (no_ac ac)
    of_Outcome _ (accepts ac') =
        unfold write in
        ground (
          arith,
          get-put_self b.heads (head_key a) a.version,
          ac.expected_head,
          ac.next_version,
          same,
        )
