-- ===== src/Harness/Repository/Changes/Adding.antt =====
-- `add_tasks` only adds rows under new ids.
use multi_agent_based_intell.Prelude.{
  String, ◌≡◌, refl, ap, if_both, ◌⊎◌, inl, inr, false, not, none, some, List, [], ◌∷◌, Memᴰ,
  Result, ok, err, arith, eq_iff, ◌==◌, string_eq, pair_eq, is_unique, Bool-cases, any_of,
  any_of-false,
}
use multi_agent_based_intell.Prelude.Dict
use multi_agent_based_intell.Prelude.Dict.{
  Dict, values, keys, get-put, contains-keys, put-is_unique,
}
use multi_agent_based_intell.Harness.Repository.Records.{
  TaskRecord, Repository, RepositoryError, Reply,
}
use multi_agent_based_intell.Harness.Repository.Tasks.{
  add_tasks, task_ids, check_tasks, put_tasks, added,
}
use multi_agent_based_intell.Harness.Repository.Requests.{new_tasks}
use multi_agent_based_intell.Harness.Repository.Changes.Rows.{Change, kept, inserted}

-- After `update`, an id has its old row or one of the incoming rows.
pub put_tasks_cases :
    (d : Dict String TaskRecord) (records : List TaskRecord) (i : String)
    → (Dict.get (put_tasks d records) i ≡ Dict.get d i)
      ⊎ ((t : TaskRecord) × Memᴰ t records
          × (t.task_id ≡ i)
          × (Dict.get (put_tasks d records) i ≡ some t))
unfolding put_tasks
put_tasks_cases d [] i = inl refl
put_tasks_cases d (x ∷ rest) i = elim (put_tasks_cases (Dict.put d x.task_id x) rest i) [
  | inr (t, m, own, e) ↦ inr (t, Memᴰ.tail m, own, e)
  | inl same ↦ elim (Bool-cases (x.task_id == i)) [
    | inl here ↦
        inr
          (x, Memᴰ.head refl, (eq_iff x.task_id i).0 here, ground (arith, get-put d x.task_id i x))
    | inr other ↦ inl (ground (arith, get-put d x.task_id i x))
  ]
]

pub mem-task_ids :
    (records : List TaskRecord) (t : TaskRecord)
    → Memᴰ t records
    → Memᴰ t.task_id (task_ids records)
mem-task_ids [] t m = elim m [ ]
mem-task_ids (x ∷ rest) t (Memᴰ.head e) = Memᴰ.head (ap (λ (y : TaskRecord). y.task_id) e)
mem-task_ids (x ∷ rest) t (Memᴰ.tail m) = Memᴰ.tail (mem-task_ids rest t m)

module _ (s : Repository) (i : String) where
  pub added-Change :
      (records : List TaskRecord) (m : Result RepositoryError (Unit {0}))
      → any_of (λ k. Dict.has s.tasks k) (task_ids records) ≡ false
      → Change s.tasks i
          (new_tasks records)
          (Dict.get s.tasks i)
          (Dict.get (added s records m).1.tasks i)
  added-Change records (err e) fresh = kept _ _
  added-Change records (ok _) fresh = elim (put_tasks_cases s.tasks records i) [
    | inl same ↦ rw same (kept _ _)
    | inr (t, m, own, e) ↦
        let absent : Dict.get s.tasks i ≡ none = ground (
          arith,
          own,
          any_of-false (λ k. Dict.has s.tasks k) (task_ids records) fresh
              (mem-task_ids records t m),
        ) in
        rw (absent, e) (inserted records t m own)
  ]

  pub add-Change :
      (records : List TaskRecord)
      → Change s.tasks i
          (new_tasks records)
          (Dict.get s.tasks i)
          (Dict.get (add_tasks s records).1.tasks i)
  unfolding add_tasks
  add-Change records =
      let P = λ (q : Reply (Unit {0})).
        Change s.tasks i (new_tasks records) (Dict.get s.tasks i) (Dict.get q.1.tasks i) in
      if_both P (not (is_unique (task_ids records))) (λ no. kept _ _)
        λ _.
          if_both P (any_of (λ k. Dict.has s.tasks k) (task_ids records)) (λ no. kept _ _)
            λ fresh. added-Change records (check_tasks s (task_ids records) records) fresh
