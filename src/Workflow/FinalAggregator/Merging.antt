-- ===== src/Workflow/FinalAggregator/Merging.antt =====
-- The evidence of a final bundle: that of both agents, each piece once, in the order of the ids.
pub mod Ends
use multi_agent_based_intell.Prelude.{
  String, ◌≡◌, refl, subst, ◌↔◌, ◌⊎◌, inl, inr, Bool, true, false, not, Option, none, some, List,
  [], ◌∷◌, ◌++◌, Memᴰ, Result, ok, ◌>>=◌, ◌>>◌, arith, string_eq, ◌==◌, eq_iff, is_unique, is_empty,
  All, All_mem, All-of_mem, mem-map, mem-of-map, Bool-cases, Option-cases,
}
use multi_agent_based_intell.Prelude.Dict
use multi_agent_based_intell.Prelude.Dict.{Dict, keys, values}
use multi_agent_based_intell.Prelude.Sorting.{
  sort_by, IsSorted, sort_by-IsSorted, sort_by-is_unique, mem-sort_by, mem-of-sort_by,
}
use multi_agent_based_intell.Prelude.Strings.{str_le, str_le_total, str_le_trans}
use multi_agent_based_intell.Domain.Messaging.{Evidence}
use multi_agent_based_intell.Domain.Bundle.{evidence_ids}
use multi_agent_based_intell.Workflow.FinalAggregator.{
  AggregationError, ensure, or_raise, evidence_conflict, conflicts, merge_into, id_before,
}

pub ensure_ok {ℓ} :
    {A : Type ℓ} (b : Bool) (e : AggregationError) (next : Result AggregationError A) {r : A}
    → (ensure b e >> next) ≡ ok r
    → (b ≡ true) × (next ≡ ok r)
ensure_ok true e next h = (refl, h)
ensure_ok false e next h = absurd (cc)

pub or_raise_ok {ℓ κ} :
    {A : Type ℓ} {B : Type κ} (o : Option A) (e : AggregationError)
    (next : A → Result AggregationError B) {r : B}
    → (or_raise o e >>= next) ≡ ok r
    → (a : A) × (o ≡ some a) × (next a ≡ ok r)
or_raise_ok none e next h = absurd (cc)
or_raise_ok (some a) e next h = (a, refl, h)

-- Each piece of evidence stands under its own id.
abbrev IsOwn : String × Evidence → Type 0
IsOwn item = item.1.evidence_id ≡ item.0

module _ (same : Evidence → Evidence → Bool)
    (same_eq : (a b : Evidence) → same a b ≡ true → a ≡ b) where
  -- What a merge adds to a dict.
  record Adds (before : Dict String Evidence) (items : List Evidence) (after : Dict String Evidence)
      : Type 0 where
    kept : (id : String) (e : Evidence) → Dict.get before id ≡ some e → Dict.get after id ≡ some e
    added : (e : Evidence) → Memᴰ e items → Dict.get after e.evidence_id ≡ some e
    only :
        (id : String) (e : Evidence)
        → Dict.get after id ≡ some e
        → (Dict.get before id ≡ some e) ⊎ Memᴰ e items
    distinct : is_unique (keys before) ≡ true → is_unique (keys after) ≡ true
    own : All IsOwn before → All IsOwn after

  -- No conflict: the entry is absent, or it is this very piece.
  put_keeps :
      (d : Dict String Evidence) (item : Evidence) (id : String) (e : Evidence)
      → not (conflicts same (Dict.get d item.evidence_id) item) ≡ true
      → Dict.get d id ≡ some e
      → Dict.get (Dict.put d item.evidence_id item) id ≡ some e
  put_keeps d item id e free at = elim (Option-cases (Dict.get d item.evidence_id)) [
    | inl absent ↦
        ground
          (arith, absent, at, Dict.get-put d item.evidence_id id item, eq_iff item.evidence_id id)
    | inr (old, present) ↦ ground (
      arith,
      at,
      present,
      same_eq old item (ground (arith, present, free)),
      Dict.get-put d item.evidence_id id item,
      eq_iff item.evidence_id id,
    )
  ]

  put_cases :
      (d : Dict String Evidence) (item : Evidence) (items : List Evidence) (id : String)
      (e : Evidence)
      → Dict.get (Dict.put d item.evidence_id item) id ≡ some e
      → (Dict.get d id ≡ some e) ⊎ Memᴰ e (item ∷ items)
  put_cases d item items id e h = elim (Bool-cases (item.evidence_id == id)) [
    | inl here ↦ inr (Memᴰ.head (ground (arith, here, Dict.get-put d item.evidence_id id item)))
    | inr other ↦ inl (ground (arith, other, Dict.get-put d item.evidence_id id item))
  ]

  later_cases :
      (d : Dict String Evidence) (item : Evidence) (items : List Evidence) (id : String)
      (e : Evidence)
      → (Dict.get (Dict.put d item.evidence_id item) id ≡ some e) ⊎ Memᴰ e items
      → (Dict.get d id ≡ some e) ⊎ Memᴰ e (item ∷ items)
  later_cases d item items id e (inl h) = put_cases d item items id e h
  later_cases d item items id e (inr m) = inr (Memᴰ.tail m)

  merge_into-Adds :
      (before : Dict String Evidence) (items : List Evidence) {after : Dict String Evidence}
      → merge_into same before items ≡ ok after
      → Adds before items after
  unfolding merge_into
  merge_into-Adds before [] {after} h = subst (Adds before []) (ok_eq h) (record {
    kept = λ id e at. at;
    added = λ e m. elim m [ ];
    only = λ id e at. inl at;
    distinct = λ u. u;
    own = λ o. o;
  })
    where
      ok_eq :
          {a b : Dict String Evidence}
          → ◌≡◌ {A = Result AggregationError (Dict String Evidence)} (ok a) (ok b)
          → a ≡ b
      ok_eq p = cc
  merge_into-Adds before (item ∷ items) {after} h =
      let (free, rest) = ensure_ok _ evidence_conflict _ h in
      let next = merge_into-Adds (Dict.put before item.evidence_id item) items rest in
      record {
        kept = λ id e at. next.kept id e (put_keeps before item id e free at);
        added = λ e m. elim m [
          | Memᴰ.head p ↦
              rw p
                (next.kept item.evidence_id item (Dict.get-put_self before item.evidence_id item))
          | Memᴰ.tail n ↦ next.added e n
        ];
        only = λ id e at. later_cases before item items id e (next.only id e at);
        distinct = λ u. next.distinct (Dict.put-is_unique before item.evidence_id item u);
        own = λ o. next.own (Dict.All-put IsOwn before item.evidence_id item (λ j p. cc) o);
      }

  -- The merged evidence: that of the two groups, no id twice, sorted by id.
  pub record Merged (destination mobility merged : List Evidence) : Type 0 where
    pub exact : (e : Evidence) → Memᴰ e merged ↔ Memᴰ e (destination ++ mobility)
    pub distinct : is_unique (evidence_ids merged) ≡ true
    pub sorted : IsSorted (λ a b. str_le a.evidence_id b.evidence_id) merged
    pub some_evidence : is_empty merged ≡ false

  evidence_ids-values :
      (items : List (String × Evidence))
      → All IsOwn items
      → evidence_ids (values items) ≡ keys items
  evidence_ids-values [] o = refl
  evidence_ids-values ((id, e) ∷ items) o = ground (arith, o.0, evidence_ids-values items o.1)

  All-values :
      (x : String × Evidence) (items : List (String × Evidence))
      → IsOwn x
      → All IsOwn items
      → All (λ y. id_before x y ≡ true) items
      → All (λ (e : Evidence). str_le x.1.evidence_id e.evidence_id ≡ true) (values items)
  All-values x [] p o a = tt
  All-values x (y ∷ items) p o a = (ground (arith, p, o.0, a.0), All-values x items p o.1 a.1)

  values-IsSorted :
      (items : List (String × Evidence))
      → All IsOwn items
      → IsSorted id_before items
      → IsSorted (λ (a b : Evidence). str_le a.evidence_id b.evidence_id) (values items)
  values-IsSorted [] o s = tt
  values-IsSorted (x ∷ items) o s = (All-values x items o.0 o.1 s.0, values-IsSorted items o.1 s.1)

  not_empty {ℓ} : {A : Type ℓ} (xs : List A) {x : A} → Memᴰ x xs → is_empty xs ≡ false
  not_empty [] m = elim m [ ]
  not_empty (y ∷ xs) m = refl

  one_of {ℓ} : {A : Type ℓ} (xs : List A) → is_empty xs ≡ false → (x : A) × Memᴰ x xs
  one_of [] h = absurd (cc)
  one_of (x ∷ xs) h = (x, Memᴰ.head refl)

  dict-Merged :
      (destination mobility : List Evidence) (by_id : Dict String Evidence)
      → Adds [] (destination ++ mobility) by_id
      → is_empty by_id ≡ false
      → Merged destination mobility (values (sort_by id_before by_id))
  unfolding Dict.get
  dict-Merged destination mobility by_id a full = record {
    exact = λ e. (forward e, backward e);
    distinct =
        rw (evidence_ids-values sorted_items own_sorted)
          (sort_by-is_unique id_before (λ p. p.0) by_id unique);
    sorted = values-IsSorted sorted_items own_sorted (
        sort_by-IsSorted id_before (λ x y. str_le_total x.0 y.0) (λ x y z. str_le_trans x.0 y.0 z.0)
          by_id);
    some_evidence =
        let (x, m) = one_of by_id full in
        not_empty _
          (mem-map (λ (y : String × Evidence). y.1) sorted_items (mem-sort_by id_before by_id m));
  }
    where
      unique : is_unique (keys by_id) ≡ true
      unique = a.distinct refl

      sorted_items : List (String × Evidence)
      sorted_items = sort_by id_before by_id

      own_sorted : All IsOwn sorted_items
      own_sorted =
          All-of_mem sorted_items
            λ x m. All_mem IsOwn by_id (a.own tt) (mem-of-sort_by id_before by_id m)

      forward : (e : Evidence) → Memᴰ e (values sorted_items) → Memᴰ e (destination ++ mobility)
      forward e m =
          let (x, at, p) = mem-of-map (λ (y : String × Evidence). y.1) sorted_items m in
          subst (λ z. Memᴰ z (destination ++ mobility)) p
            (elim (a.only x.0 x.1
              (Dict.get_of_mem by_id unique (mem-of-sort_by id_before by_id at))) [
                | inl before ↦ absurd (cc before)
                | inr inside ↦ inside
              ])

      backward : (e : Evidence) → Memᴰ e (destination ++ mobility) → Memᴰ e (values sorted_items)
      backward e m =
          mem-map (λ (y : String × Evidence). y.1) sorted_items
            (mem-sort_by id_before by_id (Dict.mem_of_get by_id (a.added e m)))
