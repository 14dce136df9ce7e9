-- ===== src/Harness/Blackboard/Invariant.antt =====
-- What holds of the three tables of a `MemoryBlackboard`, and that `write` keeps it.
use multi_agent_based_intell.Prelude.{
  ℕ, ◌+◌, ◌≤◌, String, ◌≡◌, refl, false, none, some, List, [], ◌∷◌, arith, subst₂, subst₃, eq_iff,
  ◌==◌, string_eq, nat_eq, pair_eq, pair_beq, pair_beq_iff, ap, All, if◌then◌else◌, Bool-cases, inl,
  inr,
}
use multi_agent_based_intell.Prelude.Dict
use multi_agent_based_intell.Prelude.Dict.{Dict, get-put, get-put_self}
use multi_agent_based_intell.Harness.Blackboard.{
  ArtifactRecord, HeadKey, head_key, Board, empty_board, head_version, stored,
}

-- A parent that is stored, in the given run, and stands before `bound`.
pub record IsParent (b : Board) (run_id parent_id : String) : Type 0 where
  pub parent : ArtifactRecord
  pub found : Dict.get b.records parent_id ≡ some parent
  pub same_run : parent.run_id ≡ run_id

-- A record stands under its own id, its version is indexed, and its parents are stored.
pub record IsStored (b : Board) (artifact_id : String) (a : ArtifactRecord) : Type 0 where
  pub own_id : a.artifact_id ≡ artifact_id
  pub indexed : Dict.get b.logical (head_key a, a.version) ≡ some artifact_id
  pub not_ahead : a.version ≤ head_version b (head_key a)
  pub parents : All (IsParent b a.run_id) a.parent_artifact_ids

-- What the index holds is stored, under the indexed key and version.
pub record IsIndexed (b : Board) (k : HeadKey) (v : ℕ) (artifact_id : String) : Type 0 where
  pub artifact : ArtifactRecord
  pub found : Dict.get b.records artifact_id ≡ some artifact
  pub same_key : head_key artifact ≡ k
  pub same_version : artifact.version ≡ v

pub record IsConsistent (b : Board) : Type 0 where
  pub at_id : (i : String) (a : ArtifactRecord) → Dict.get b.records i ≡ some a → IsStored b i a
  pub at_version :
      (k : HeadKey) (v : ℕ) (i : String) → Dict.get b.logical (k, v) ≡ some i → IsIndexed b k v i
  -- Versions 1 up to the head are all there.
  pub no_gap :
      (k : HeadKey) (v : ℕ)
      → 1 ≤ v
      → v ≤ head_version b k
      → (i : String) × (Dict.get b.logical (k, v) ≡ some i)
  pub heads_positive : (k : HeadKey) (v : ℕ) → Dict.get b.heads k ≡ some v → 1 ≤ v

pub empty_board-IsConsistent : IsConsistent empty_board
unfolding Dict.get
empty_board-IsConsistent = record {
  at_id = λ i a h. absurd (cc);
  at_version = λ k v i h. absurd (cc);
  no_gap = λ k v h l. absurd (omega arith);
  heads_positive = λ k v h. absurd (cc);
}

-- The guards of `write`, as a proposition on the tables.
pub record IsAccepted (b : Board) (a : ArtifactRecord) (expected : ℕ) : Type 0 where
  pub expected_head : expected ≡ head_version b (head_key a)
  pub next_version : a.version ≡ head_version b (head_key a) + 1
  pub fresh : Dict.get b.records a.artifact_id ≡ none
  pub parents : All (IsParent b a.run_id) a.parent_artifact_ids

module _ (b : Board) (a : ArtifactRecord) {n : ℕ} (ac : IsAccepted b a n) (c : IsConsistent b) where
  IsParent-stored : {r p : String} → IsParent b r p → IsParent (stored b a) r p
  IsParent-stored {r} {p} h = record {
    parent = h.parent;
    found =
        ground
          (arith, get-put b.records a.artifact_id p a, eq_iff a.artifact_id p, ac.fresh, h.found);
    same_run = h.same_run;
  }

  All-parents :
      (r : String) (ps : List String) → All (IsParent b r) ps → All (IsParent (stored b a) r) ps
  All-parents r [] h = tt
  All-parents r (p ∷ ps) h = (IsParent-stored h.0, All-parents r ps h.1)

  pub head-stored :
      (k : HeadKey)
      → head_version (stored b a) k ≡ (if head_key a == k then a.version else head_version b k)
  head-stored k = ground (arith, get-put b.heads (head_key a) k a.version)

  pub index-stored :
      (k : HeadKey) (v : ℕ)
      → Dict.get (stored b a).logical (k, v) ≡ (
          if pair_beq (head_key a, a.version) (k, v)
          then some a.artifact_id
          else Dict.get b.logical (k, v))
  index-stored k v = get-put b.logical (head_key a, a.version) (k, v) a.artifact_id

  pub record-stored :
      (i : String)
      → Dict.get (stored b a).records i
        ≡ (if a.artifact_id == i then some a else Dict.get b.records i)
  record-stored i = get-put b.records a.artifact_id i a

  new-IsStored : IsStored (stored b a) a.artifact_id a
  new-IsStored = record {
    own_id = refl;
    indexed = get-put_self b.logical (head_key a, a.version) a.artifact_id;
    not_ahead = ground (arith, head-stored (head_key a), pair_beq_iff (head_key a) (head_key a));
    parents = All-parents a.run_id a.parent_artifact_ids ac.parents;
  }

  old-IsStored : (i : String) (x : ArtifactRecord) → IsStored b i x → IsStored (stored b a) i x
  old-IsStored i x s = record {
    own_id = s.own_id;
    indexed = ground (
      arith,
      index-stored (head_key x) x.version,
      pair_beq_iff (head_key a) (head_key x),
      ac.next_version,
      s.not_ahead,
      s.indexed,
    );
    not_ahead = ground (arith, head-stored (head_key x), pair_beq_iff (head_key a) (head_key x));
    parents = All-parents x.run_id x.parent_artifact_ids s.parents;
  }

  stored-at_id :
      (i : String) (x : ArtifactRecord)
      → Dict.get (stored b a).records i ≡ some x
      → IsStored (stored b a) i x
  stored-at_id i x h = elim (Bool-cases (a.artifact_id == i)) [
    | inl same ↦
        subst₂ (IsStored (stored b a)) ((eq_iff a.artifact_id i).0 same)
          (ground (arith, record-stored i)) new-IsStored
    | inr other ↦ old-IsStored i x (c.at_id i x (ground (arith, record-stored i)))
  ]

  new-IsIndexed : IsIndexed (stored b a) (head_key a) a.version a.artifact_id
  new-IsIndexed = record {
    artifact = a;
    found = get-put_self b.records a.artifact_id a;
    same_key = refl;
    same_version = refl;
  }

  old-IsIndexed :
      (k : HeadKey) (v : ℕ) (i : String) → IsIndexed b k v i → IsIndexed (stored b a) k v i
  old-IsIndexed k v i x = record {
    artifact = x.artifact;
    found = ground (arith, record-stored i, eq_iff a.artifact_id i, ac.fresh, x.found);
    same_key = x.same_key;
    same_version = x.same_version;
  }

  stored-at_version :
      (k : HeadKey) (v : ℕ) (i : String)
      → Dict.get (stored b a).logical (k, v) ≡ some i
      → IsIndexed (stored b a) k v i
  stored-at_version k v i h = elim (Bool-cases (pair_beq (head_key a, a.version) (k, v))) [
    | inl same ↦
        let e = (pair_beq_iff (head_key a, a.version) (k, v)).0 same in
        subst₃ (IsIndexed (stored b a)) (ap (λ p. p.0) e) (ap (λ p. p.1) e)
          (ground (arith, index-stored k v)) new-IsIndexed
    | inr other ↦ old-IsIndexed k v i (c.at_version k v i (ground (arith, index-stored k v)))
  ]

  stored-no_gap :
      (k : HeadKey) (v : ℕ)
      → 1 ≤ v
      → v ≤ head_version (stored b a) k
      → (i : String) × (Dict.get (stored b a).logical (k, v) ≡ some i)
  stored-no_gap k v low high = elim (Bool-cases (pair_beq (head_key a, a.version) (k, v))) [
    | inl same ↦ (a.artifact_id, ground (arith, index-stored k v))
    | inr other ↦
        let (i, e) = c.no_gap k v low (within other) in (i, ground (arith, index-stored k v, e))
  ]
    where
      within : pair_beq (head_key a, a.version) (k, v) ≡ false → v ≤ head_version b k
      within other =
          ground (arith, head-stored k, pair_beq_iff (head_key a) k, ac.next_version, high)

  pub stored-IsConsistent : IsConsistent (stored b a)
  stored-IsConsistent = record {
    at_id = stored-at_id;
    at_version = stored-at_version;
    no_gap = stored-no_gap;
    heads_positive = λ k v h.
        ground (
          arith,
          get-put b.heads (head_key a) k a.version,
          ac.next_version,
          h,
          c.heads_positive k v,
        );
  }
