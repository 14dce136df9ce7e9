-- ===== src/Harness/Repository/Invariant.antt =====
-- What holds of the task table after any requests: rows stand under their own ids, ids are
-- distinct, and dependencies are rows.
pub mod Distinct
use multi_agent_based_intell.Prelude.{
  String, ◌≡◌, refl, sym, ◌∙◌, subst, if_both, ◌⊎◌, inl, inr, Bool, true, not, ◌||◌, Option, none,
  some, List, [], ◌∷◌, Memᴰ, Result, ok, err, arith, string_eq, all_of, contains, is_unique, any_of,
  is_some,
}
use multi_agent_based_intell.Prelude.Dict
use multi_agent_based_intell.Prelude.Dict.{Dict, get-put}
use multi_agent_based_intell.Harness.Repository.Records.{
  TaskRecord, Repository, RepositoryError, Reply, empty_repository,
}
use multi_agent_based_intell.Harness.Repository.Tasks.{
  add_tasks, task_ids, check_tasks, put_tasks, added,
}
use multi_agent_based_intell.Harness.Repository.Leasing.{IsKeyed, IsClosed}
use multi_agent_based_intell.Harness.Repository.Requests.{Request, new_tasks, perform, perform_all}
use multi_agent_based_intell.Harness.Repository.Changes.{perform-Change}
use multi_agent_based_intell.Harness.Repository.Changes.Rows.{
  Change, kept, inserted, leased, completed, completed_with_event, beaten, released,
}
use multi_agent_based_intell.Harness.Repository.Changes.Adding.{put_tasks_cases}
use multi_agent_based_intell.Harness.Repository.Invariant.Distinct.{perform-IsDistinct}

module _ {tasks : Dict String TaskRecord} {i : String} where
  own-Change :
      {r : Request} {o o' : Option TaskRecord}
      → Change tasks i r o o'
      → ((t : TaskRecord) → o ≡ some t → t.task_id ≡ i)
      → (t : TaskRecord) → o' ≡ some t
      → t.task_id ≡ i
  own-Change (kept _ _) h t e = h t e
  own-Change (inserted records u m own) h t e = ground arith
  own-Change (leased w now seconds run u long fits) h t e = ground (arith, h u refl)
  own-Change (completed k w now u here l o) h t e = ground (arith, h u refl)
  own-Change (completed_with_event k w now ev ob u here l o) h t e = ground (arith, h u refl)
  own-Change (beaten k w now seconds u here long o b l) h t e = ground (arith, h u refl)
  own-Change (released now u over) h t e = ground (arith, h u refl)

  pub has-Change :
      {r : Request} {o o' : Option TaskRecord}
      → Change tasks i r o o'
      → is_some o ≡ true
      → is_some o' ≡ true
  has-Change (kept _ _) h = h
  has-Change (inserted records u m own) h = refl
  has-Change (leased w now seconds run u long fits) h = refl
  has-Change (completed k w now u here l o) h = refl
  has-Change (completed_with_event k w now ev ob u here l o) h = refl
  has-Change (beaten k w now seconds u here long o b l) h = refl
  has-Change (released now u over) h = refl

  -- A row's dependencies are those of the old row, or the row is new.
  deps-Change :
      {r : Request} {o o' : Option TaskRecord}
      → Change tasks i r o o'
      → (t : TaskRecord) → o' ≡ some t
      → ((u : TaskRecord) × (o ≡ some u) × (t.dependency_ids ≡ u.dependency_ids))
        ⊎ ((records : List TaskRecord) × (r ≡ new_tasks records) × (o ≡ none))
  deps-Change (kept _ _) t e = inl (t, e, refl)
  deps-Change (inserted records u m own) t e = inr (records, refl, refl)
  deps-Change (leased w now seconds run u long fits) t e = inl (u, refl, ground arith)
  deps-Change (completed k w now u here l o) t e = inl (u, refl, ground arith)
  deps-Change (completed_with_event k w now ev ob u here l o) t e = inl (u, refl, ground arith)
  deps-Change (beaten k w now seconds u here long o b l) t e = inl (u, refl, ground arith)
  deps-Change (released now u over) t e = inl (u, refl, ground arith)

has-put_tasks :
    (d : Dict String TaskRecord) (records : List TaskRecord) (k : String)
    → (contains (task_ids records) k || Dict.has d k) ≡ true
    → Dict.has (put_tasks d records) k ≡ true
unfolding put_tasks
has-put_tasks d [] k h = h
has-put_tasks d (x ∷ rest) k h =
    has-put_tasks (Dict.put d x.task_id x) rest k (ground (arith, get-put d x.task_id k x))

-- The checks of `add_tasks` give each incoming row its dependencies.
check_tasks-known :
    (s : Repository) (known : List String) (records : List TaskRecord) (t : TaskRecord)
    → check_tasks s known records ≡ ok tt
    → Memᴰ t records
    → all_of (λ d. contains known d || Dict.has s.tasks d) t.dependency_ids ≡ true
unfolding check_tasks
check_tasks-known s known [] t h m = elim m [ ]
check_tasks-known s known (x ∷ rest) t h (Memᴰ.head e) = rw e (ground arith)
check_tasks-known s known (x ∷ rest) t h (Memᴰ.tail m) =
    check_tasks-known s known rest t (ground arith) m

all_of_imp :
    (p q : String → Bool) (xs : List String)
    → ((x : String) → p x ≡ true → q x ≡ true)
    → all_of p xs ≡ true
    → all_of q xs ≡ true
all_of_imp p q [] f h = refl
all_of_imp p q (x ∷ xs) f h = ground (arith, f x, all_of_imp p q xs f)

added-IsClosed :
    (s : Repository) (records : List TaskRecord) (m : Result RepositoryError (Unit {0}))
    → check_tasks s (task_ids records) records ≡ m
    → IsClosed s.tasks
    → IsClosed (added s records m).1.tasks
added-IsClosed s records (err e) checked closed i t found = closed i t found
added-IsClosed s records (ok done) checked closed i t found =
    elim (put_tasks_cases s.tasks records i) [
      | inl same ↦
          all_of_imp (Dict.has s.tasks) (Dict.has (put_tasks s.tasks records)) t.dependency_ids
            (λ k h. has-put_tasks s.tasks records k (ground arith)) (closed i t (sym same ∙ found))
      | inr (u, m, own, e) ↦
          let known = check_tasks-known s (task_ids records) records u checked m in
          let same : u ≡ t = ground arith in
          subst
            (λ (x : TaskRecord).
              all_of (Dict.has (put_tasks s.tasks records)) x.dependency_ids ≡ true)
            same
            (all_of_imp _ (Dict.has (put_tasks s.tasks records)) u.dependency_ids
              (λ k h. has-put_tasks s.tasks records k h) known)
    ]

add_tasks-IsClosed :
    (s : Repository) (records : List TaskRecord)
    → IsClosed s.tasks
    → IsClosed (add_tasks s records).1.tasks
unfolding add_tasks
add_tasks-IsClosed s records closed =
    let P = λ (q : Reply (Unit {0})). IsClosed q.1.tasks in
    if_both P (not (is_unique (task_ids records))) (λ _. closed)
      λ _.
        if_both P (any_of (λ k. Dict.has s.tasks k) (task_ids records)) (λ _. closed)
          λ _. added-IsClosed s records (check_tasks s (task_ids records) records) refl closed

-- The rows stand under their own ids, which are distinct, and all dependencies are rows.
pub record IsSound (s : Repository) : Type 0 where
  pub keyed : IsKeyed s.tasks
  pub closed : IsClosed s.tasks

pub empty_repository-IsSound : IsSound empty_repository
unfolding Dict.get
empty_repository-IsSound = record {
  keyed = record { distinct = refl; own_id = λ i t e. absurd (cc) };
  closed = λ i t e. absurd (cc);
}

module _ (s : Repository) (r : Request) (sound : IsSound s) where
  perform-has : (k : String) → Dict.has s.tasks k ≡ true → Dict.has (perform s r).tasks k ≡ true
  perform-has k = has-Change (perform-Change s r k sound.keyed sound.closed)

  kept-closed :
      (i : String) (t : TaskRecord)
      → (u : TaskRecord) × (Dict.get s.tasks i ≡ some u) × (t.dependency_ids ≡ u.dependency_ids)
      → all_of (Dict.has (perform s r).tasks) t.dependency_ids ≡ true
  kept-closed i t (u, e, same) =
      subst (λ ds. all_of (Dict.has (perform s r).tasks) ds ≡ true) (sym same)
        (all_of_imp (Dict.has s.tasks) (Dict.has (perform s r).tasks) u.dependency_ids perform-has
          (sound.closed i u e))

perform-IsClosed : (s : Repository) (r : Request) → IsSound s → IsClosed (perform s r).tasks
perform-IsClosed s r sound i t found =
    elim (deps-Change (perform-Change s r i sound.keyed sound.closed) t found) [
      | inl old ↦ kept-closed s r sound i t old
      | inr (records, is_add, absent) ↦
          subst (λ q. all_of (Dict.has (perform s q).tasks) t.dependency_ids ≡ true) (sym is_add)
            (unfold perform in
              add_tasks-IsClosed s records sound.closed i t
                (subst (λ q. Dict.get (perform s q).tasks i ≡ some t) is_add found))
    ]

-- Every request keeps the task table sound.
pub perform-IsSound : (s : Repository) (r : Request) → IsSound s → IsSound (perform s r)
perform-IsSound s r sound = record {
  keyed = record {
    distinct = perform-IsDistinct s r sound.keyed sound.closed;
    own_id = λ i. own-Change (perform-Change s r i sound.keyed sound.closed) (sound.keyed.own_id i);
  };
  closed = perform-IsClosed s r sound;
}

-- Every run of requests keeps the task table sound: ids are distinct and their rows' own, and every
-- dependency of a stored task is stored.
pub perform_all-IsSound :
    (s : Repository) (requests : List Request) → IsSound s → IsSound (perform_all s requests)
unfolding perform_all
perform_all-IsSound s [] h = h
perform_all-IsSound s (r ∷ rest) h = perform_all-IsSound (perform s r) rest (perform-IsSound s r h)
