-- ===== src/Workflow/FinalAggregator/Merging/Ends.antt =====
-- How a merge of evidence ends: it succeeds, or two pieces conflict, or there is none.
use multi_agent_based_intell.Prelude.{
  String, ◌≡◌, refl, sym, inl, inr, Bool, true, false, List, [], ◌∷◌, ◌++◌, Memᴰ, Result, ok, err,
  ◌>>=◌, arith, string_eq, All, All_mem, Bool-cases, Option-cases,
}
use multi_agent_based_intell.Prelude.Dict
use multi_agent_based_intell.Prelude.Dict.{Dict}
use multi_agent_based_intell.Domain.Messaging.{Evidence}
use multi_agent_based_intell.Workflow.FinalAggregator.{
  AggregationError, evidence_conflict, missing_evidence, conflicts, merge_into, in_id_order,
  merge_evidence,
}
use multi_agent_based_intell.Workflow.FinalAggregator.Merging.{
  IsOwn, Adds, merge_into-Adds, Merged, dict-Merged,
}

module _ (same : Evidence → Evidence → Bool) where
  -- Two of the pieces have one id and differ.
  pub record HasConflict (items : List Evidence) : Type 0 where
    pub first : Evidence
    pub second : Evidence
    pub first_in : Memᴰ first items
    pub second_in : Memᴰ second items
    pub one_id : first.evidence_id ≡ second.evidence_id
    pub differ : same first second ≡ false

  -- An entry is one of the pieces, under its own id.
  abbrev IsFrom : List Evidence → String × Evidence → Type 0
  IsFrom items entry = Memᴰ entry.1 items × IsOwn entry

  clash :
      (items : List Evidence) (by_id : Dict String Evidence) (item : Evidence)
      → All (IsFrom items) by_id
      → Memᴰ item items
      → conflicts same (Dict.get by_id item.evidence_id) item ≡ true
      → HasConflict items
  clash items by_id item from inside h = elim (Option-cases (Dict.get by_id item.evidence_id)) [
    | inl absent ↦ absurd (ground (arith, absent))
    | inr (old, at) ↦
        let (old_in, own) = All_mem (IsFrom items) by_id from (Dict.mem_of_get by_id at) in
        record {
          first = old;
          second = item;
          first_in = old_in;
          second_in = inside;
          one_id = own;
          differ = ground (arith, at, h);
        }
  ]

  merge_into-conflict :
      (all : List Evidence) (by_id : Dict String Evidence) (items : List Evidence)
      {e : AggregationError}
      → All (IsFrom all) by_id
      → ((x : Evidence) → Memᴰ x items → Memᴰ x all)
      → merge_into same by_id items ≡ err e
      → (e ≡ evidence_conflict) × HasConflict all
  unfolding merge_into
  merge_into-conflict all by_id [] from inside h = absurd (cc)
  merge_into-conflict all by_id (item ∷ items) {e} from inside h =
      elim (Bool-cases (conflicts same (Dict.get by_id item.evidence_id) item)) [
        | inl clashes ↦ (
          ground (arith, clashes, h),
          clash all by_id item from (inside item (Memᴰ.head refl)) clashes,
        )
        | inr free ↦
            merge_into-conflict all (Dict.put by_id item.evidence_id item) items
              (Dict.All-put (IsFrom all) by_id item.evidence_id item
                (λ j same_id. (inside item (Memᴰ.head refl), sym same_id)) from)
              (λ x m. inside x (Memᴰ.tail m)) (ground (arith, free, h))
      ]

module _ (same : Evidence → Evidence → Bool)
    (same_eq : (a b : Evidence) → same a b ≡ true → a ≡ b) where
  -- The ends of a merge.
  pub data Merging (destination mobility : List Evidence)
      : Result AggregationError (List Evidence) → Type 0 where
    merged :
        {evidence : List Evidence}
        → Merged same same_eq destination mobility evidence
        → Merging destination mobility (ok evidence)
    conflicting :
        HasConflict same (destination ++ mobility)
        → Merging destination mobility (err evidence_conflict)
    missing : destination ++ mobility ≡ [] → Merging destination mobility (err missing_evidence)

  -- Nothing was added, so there is nothing.
  nothing_added : (items : List Evidence) → Adds same same_eq [] items [] → items ≡ []
  unfolding Dict.get
  nothing_added [] a = refl
  nothing_added (item ∷ items) a = absurd (cc (a.added item (Memᴰ.head refl)))

  ordered-Merging :
      (destination mobility : List Evidence) (by_id : Dict String Evidence)
      → Adds same same_eq [] (destination ++ mobility) by_id
      → Merging destination mobility (in_id_order by_id)
  ordered-Merging destination mobility [] a = missing (nothing_added (destination ++ mobility) a)
  ordered-Merging destination mobility (entry ∷ by_id) a =
      merged (dict-Merged same same_eq destination mobility (entry ∷ by_id) a refl)

  -- The merge of the evidence of both agents is all of it and nothing else, each id once and in
  -- order, unless two pieces with one id differ, which is `evidence_conflict`, or there is no
  -- evidence, which is `missing_evidence`.
  pub merge_evidence-Merging :
      (destination mobility : List Evidence)
      → Merging destination mobility (merge_evidence same destination mobility)
  unfolding merge_evidence
  merge_evidence-Merging destination mobility =
      by_result (merge_into same [] (destination ++ mobility)) refl
    where
      by_result :
          (built : Result AggregationError (Dict String Evidence))
          → merge_into same [] (destination ++ mobility) ≡ built
          → Merging destination mobility (built >>= in_id_order)
      by_result (ok by_id) h =
          ordered-Merging destination mobility by_id
            (merge_into-Adds same same_eq [] (destination ++ mobility) h)
      by_result (err e) h =
          let (same_error, conflict) =
            merge_into-conflict same (destination ++ mobility) [] (destination ++ mobility) tt
              (λ x m. m) h in
          rw same_error (conflicting conflict)
