-- ===== src/Harness/Blackboard/Lineage/Trails.antt =====
-- What one call of the inner function `visit` of `lineage` leaves.
use multi_agent_based_intell.Prelude.{
  ℕ, zero, suc, ◌≤◌, ◌<◌, String, ◌≡◌, refl, ◌∙◌, inl, inr, true, false, ◌||◌, some, List, [], ◌∷◌,
  ◌++◌, Result, ok, ◌>>=◌, arith, eq_iff, ◌==◌, string_eq, contains, All, Bool-cases, subst, sym,
  Memᴰ,
}
use multi_agent_based_intell.Prelude.Dict
use multi_agent_based_intell.Prelude.Dict.{Dict, get-put, length-put_new, length-put-le}
use multi_agent_based_intell.Harness.Blackboard.{
  ArtifactRecord, BoardError, Board, Trail, visit_each, visit,
}
use multi_agent_based_intell.Harness.Blackboard.Invariant.{IsParent, IsConsistent}
use multi_agent_based_intell.Harness.Blackboard.Lineage.Ranks.{IsRanked}
use multi_agent_based_intell.Harness.Blackboard.Lineage.Topology.{
  IsTopological, IsTopological-snoc, ids,
}

-- `i` is `root` or an ancestor of it, by the stored parent ids.
pub data IsAncestor (b : Board) (root : String) : String → Type 0 where
  itself : IsAncestor b root root
  through :
      {child : String} (x : ArtifactRecord) (i : String)
      → IsAncestor b root child
      → Dict.get b.records child ≡ some x
      → Memᴰ i x.parent_artifact_ids
      → IsAncestor b root i

-- What is listed: a stored Artifact of the run that is the root or an ancestor of it.
pub record IsListed (b : Board) (root run_id : String) (a : ArtifactRecord) : Type 0 where
  pub found : Dict.get b.records a.artifact_id ≡ some a
  pub same_run : a.run_id ≡ run_id
  pub related : IsAncestor b root a.artifact_id

pub All-snoc {ℓ κ} :
    {A : Type ℓ} (P : A → Type κ) (xs : List A) {x : A} → All P xs → P x → All P (xs ++ x ∷ [])
All-snoc P [] h p = (p, tt)
All-snoc P (y ∷ xs) h p = (h.0, All-snoc P xs h.1 p)

pub contains-ids-snoc :
    (line : List ArtifactRecord) (a : ArtifactRecord) (p : String)
    → contains (ids (line ++ a ∷ [])) p ≡ (a.artifact_id == p || contains (ids line) p)
contains-ids-snoc [] a p = refl
contains-ids-snoc (x ∷ line) a p = ground (arith, contains-ids-snoc line a p)

module _ (b : Board) (c : IsConsistent b) (r : IsRanked b) (root run_id : String) where
  pub record IsTrail (t : Trail) : Type 0 where
    pub topological : IsTopological [] t.ordered
    pub same_ids : (p : String) → contains t.visited p ≡ contains (ids t.ordered) p
    pub listed : All (IsListed b root run_id) t.ordered

  -- What calls of `visit` on `ps` leave, of ranks below `n`: they do not fail, and reach no id of
  -- rank `n` or more.
  pub record Visited (n : ℕ) (t : Trail) (ps : List String) (o : Result BoardError Trail)
      : Type 0 where
    pub after : Trail
    pub returns : o ≡ ok after
    pub trail : IsTrail after
    pub done : All (λ p. contains after.visited p ≡ true) ps
    pub kept : (p : String) → contains t.visited p ≡ true → contains after.visited p ≡ true
    pub under :
        (p : String) → n ≤ r.rank p → contains after.visited p ≡ true → contains t.visited p ≡ true

  -- An id that `visit` may be called on, of rank below `n`.
  pub record IsOpen (n : ℕ) (i : String) : Type 0 where
    pub artifact : ArtifactRecord
    pub found : Dict.get b.records i ≡ some artifact
    pub same_run : artifact.run_id ≡ run_id
    pub related : IsAncestor b root i
    pub in_bound : r.rank i < n

  pub each-Visited :
      (n : ℕ) (f : String → Trail → Result BoardError Trail)
      → ((i : String) (t : Trail) → IsTrail t → IsOpen n i → Visited n t (i ∷ []) (f i t))
      → (ps : List String) (t : Trail) → IsTrail t
      → All (IsOpen n) ps
      → Visited n t ps (visit_each f ps t)
  unfolding visit_each
  each-Visited n f vf [] t h os = record {
    after = t;
    returns = refl;
    trail = h;
    done = tt;
    kept = λ p k. k;
    under = λ p u k. k;
  }
  each-Visited n f vf (p ∷ ps) t h os =
      let v = vf p t h os.0 in
      let w = each-Visited n f vf ps v.after v.trail os.1 in
      record {
        after = w.after;
        returns = rw v.returns w.returns;
        trail = w.trail;
        done = (w.kept p v.done.0, w.done);
        kept = λ q k. w.kept q (v.kept q k);
        under = λ q u k. v.under q u (w.under q u k);
      }

  -- The parents of an id that is open are open below its rank.
  pub IsOpen-parents :
      (i : String) (x : ArtifactRecord)
      → Dict.get b.records i ≡ some x
      → x.run_id ≡ run_id
      → IsAncestor b root i
      → (ps : List String) → ((p : String) → Memᴰ p ps → Memᴰ p x.parent_artifact_ids)
      → All (λ p. r.rank p < r.rank i) ps
      → All (IsParent b x.run_id) ps
      → All (IsOpen (r.rank i)) ps
  IsOpen-parents i x found run rel [] within lower held = tt
  IsOpen-parents i x found run rel (p ∷ ps) within lower held = (
    record {
      artifact = held.0.parent;
      found = held.0.found;
      same_run = held.0.same_run ∙ run;
      related = through x p rel found (within p (Memᴰ.head refl));
      in_bound = lower.0;
    },
    IsOpen-parents i x found run rel ps (λ q m. within q (Memᴰ.tail m)) lower.1 held.1,
  )

  pub All-listed :
      (t : Trail) (ps : List String)
      → IsTrail t
      → All (λ p. contains t.visited p ≡ true) ps
      → All (λ p. (contains (ids t.ordered) p || contains [] p) ≡ true) ps
  All-listed t [] h k = tt
  All-listed t (p ∷ ps) h k = (ground (arith, h.same_ids p, k.0), All-listed t ps h k.1)

  -- The trail after the parents of `x` were visited, with `x` put behind them.
  pub snoc-IsTrail :
      (i : String) (x : ArtifactRecord) (t : Trail)
      → Dict.get b.records i ≡ some x
      → x.run_id ≡ run_id
      → IsAncestor b root i
      → IsTrail t
      → All (λ p. contains t.visited p ≡ true) x.parent_artifact_ids
      → contains t.visited i ≡ false
      → IsTrail (record { ordered = t.ordered ++ x ∷ []; visited = i ∷ t.visited })
  snoc-IsTrail i x t found run rel h parents fresh =
      let own : x.artifact_id ≡ i = (c.at_id i x found).own_id in
      record {
        topological =
            IsTopological-snoc [] t.ordered x h.topological
              (All-listed t x.parent_artifact_ids h parents) (ground (arith, own, h.same_ids i));
        same_ids = λ p. ground (arith, own, h.same_ids p, contains-ids-snoc t.ordered x p);
        listed = All-snoc (IsListed b root run_id) t.ordered h.listed (record {
          found = subst (λ j. Dict.get b.records j ≡ some x) (sym own) found;
          same_run = run;
          related = subst (IsAncestor b root) (sym own) rel;
        });
      }

  pub not_under :
      (n : ℕ) (s t : Trail) (i : String)
      → ((p : String) → n ≤ r.rank p → contains t.visited p ≡ true → contains s.visited p ≡ true)
      → n ≤ r.rank i
      → contains s.visited i ≡ false
      → contains t.visited i ≡ false
  not_under n s t i u le h = ground (arith, u i le)

  -- The step of `visit` once the parents of `i` are visited.
  pub entered :
      (n : ℕ) (i : String) (t : Trail) (o : IsOpen n i) (m : Result BoardError Trail)
      → contains t.visited i ≡ false
      → Visited (r.rank i) t o.artifact.parent_artifact_ids m
      → Visited n t (i ∷ []) (
          m >>= λ t'.
          ok (record { ordered = t'.ordered ++ o.artifact ∷ []; visited = i ∷ t'.visited }))
  entered n i t o m fresh v = record {
    after = record { ordered = v.after.ordered ++ o.artifact ∷ []; visited = i ∷ v.after.visited };
    returns = rw v.returns;
    trail =
        snoc-IsTrail i o.artifact v.after o.found o.same_run o.related v.trail v.done
          (not_under (r.rank i) t v.after i v.under (omega arith) fresh);
    done = (ground (arith, eq_iff i i), tt);
    kept = λ p k. ground (arith, v.kept p k);
    under = λ p u k. ground (arith, eq_iff i p, v.under p, o.in_bound);
  }

  pub visit-Visited :
      (fuel n : ℕ) (i : String) (t : Trail)
      → n ≤ fuel
      → IsTrail t
      → IsOpen n i
      → Visited n t (i ∷ []) (visit fuel b.records i t)
  unfolding visit
  visit-Visited zero n i t le h o = absurd (omega (arith, o.in_bound))
  visit-Visited (suc fuel) n i t le h o = elim (Bool-cases (contains t.visited i)) [
    | inl seen ↦ rw seen (record {
      after = t;
      returns = refl;
      trail = h;
      done = (seen, tt);
      kept = λ p k. k;
      under = λ p u k. k;
    })
    | inr fresh ↦
        rw (fresh, o.found)
          (entered n i t o _ fresh (
            each-Visited (r.rank i) (visit fuel b.records)
              (λ j s hs os. visit-Visited fuel (r.rank i) j s (omega (arith, o.in_bound)) hs os)
              o.artifact.parent_artifact_ids t h
              (IsOpen-parents i o.artifact o.found o.same_run o.related
                o.artifact.parent_artifact_ids (λ p m. m) (r.lower i o.artifact o.found)
                (c.at_id i o.artifact o.found).parents)))
  ]
