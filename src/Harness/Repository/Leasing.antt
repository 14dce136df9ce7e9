-- ===== src/Harness/Repository/Leasing.antt =====
-- What `lease_next_task` chooses.
use multi_agent_based_intell.Prelude.{
  ◌≤◌, ℕ, ◌<◌, String, ◌≡◌, refl, ◌⊎◌, inl, inr, Bool, true, false, not, ◌&&◌, Option, none, some,
  List, [], ◌∷◌, Memᴰ, ok, err, >>=-eq-ok, arith, ltb, string_eq, All, All_mem, all_of, select,
  is_unique, Bool-cases, mem-cons_cases, mem-of-select, mem-select, subst, sym,
}
use multi_agent_based_intell.Prelude.Dict
use multi_agent_based_intell.Prelude.Dict.{
  Dict, values, keys, get_of_value, get_of_mem, value_of_get,
}
use multi_agent_based_intell.Prelude.Sorting.{
  sort_by, IsSorted, mem-of-sort_by, mem-sort_by, sort_by-IsSorted,
}
use multi_agent_based_intell.Domain.Messaging.{is_succeeded}
use multi_agent_based_intell.Harness.Repository.Records.{
  TaskRecord, Repository, Reply, lease_seconds_not_positive,
}
use multi_agent_based_intell.Harness.Repository.Tasks.{
  is_ready, is_blocked, candidates, comes_first, leased_copy, lease_first, lease_next_task,
}

-- A dependency that is stored and has succeeded.
abbrev pub state_done : Option TaskRecord → Bool
state_done none = false
state_done (some task) = is_succeeded task.state

abbrev pub is_done : Dict String TaskRecord → String → Bool
is_done tasks d = state_done (Dict.get tasks d)

-- A task that a worker may lease: the guards of the loop as one test.
abbrev pub is_eligible : Dict String TaskRecord → ℕ → Option String → TaskRecord → Bool
is_eligible tasks now run_id task =
    is_ready now run_id task && all_of (is_done tasks) task.dependency_ids

is_blocked_of_ok :
    (tasks : Dict String TaskRecord) (ds : List String) (b : Bool)
    → is_blocked tasks ds ≡ ok b
    → all_of (is_done tasks) ds ≡ not b
unfolding is_blocked
is_blocked_of_ok tasks [] b h = ground arith
is_blocked_of_ok tasks (d ∷ ds) b h = ground (arith, is_blocked_of_ok tasks ds b)

is_blocked-known :
    (tasks : Dict String TaskRecord) (ds : List String)
    → all_of (Dict.has tasks) ds ≡ true
    → is_blocked tasks ds ≡ ok (not (all_of (is_done tasks) ds))
unfolding is_blocked
is_blocked-known tasks [] h = refl
is_blocked-known tasks (d ∷ ds) h = ground (arith, is_blocked-known tasks ds)

module _ (tasks : Dict String TaskRecord) (now : ℕ) (run_id : Option String) where
  pub candidates-eq-select :
      (rest found : List TaskRecord)
      → candidates tasks now run_id rest ≡ ok found
      → found ≡ select (is_eligible tasks now run_id) rest
  unfolding candidates
  candidates-eq-select [] found h = ground arith
  candidates-eq-select (t ∷ rest) found h = elim (Bool-cases (is_ready now run_id t)) [
    | inr skip ↦ rw skip (candidates-eq-select rest found (rw skip at h))
    | inl ready ↦
        let (b, free, h') = >>=-eq-ok (is_blocked tasks t.dependency_ids) _ (rw ready at h) in
        let (later, e, h'') = >>=-eq-ok (candidates tasks now run_id rest) _ h' in
        ground
          (arith, candidates-eq-select rest later e, is_blocked_of_ok tasks t.dependency_ids b free)
  ]

  pub candidates-known :
      (rest : List TaskRecord)
      → All (λ t. all_of (Dict.has tasks) t.dependency_ids ≡ true) rest
      → candidates tasks now run_id rest ≡ ok (select (is_eligible tasks now run_id) rest)
  unfolding candidates
  candidates-known [] h = refl
  candidates-known (t ∷ rest) h =
      ground (arith, candidates-known rest h.1, is_blocked-known tasks t.dependency_ids h.0)

comes_first-total : (a b : TaskRecord) → comes_first a b ≡ false → comes_first b a ≡ true
comes_first-total a b h = ground arith

comes_first_trans :
    (a b c : TaskRecord) → comes_first a b ≡ true → comes_first b c ≡ true → comes_first a c ≡ true
comes_first_trans a b c h k = ground arith

-- The table's keys are distinct, and each row stands under its own id.
pub record IsKeyed (tasks : Dict String TaskRecord) : Type 0 where
  pub distinct : is_unique (keys tasks) ≡ true
  pub own_id : (i : String) (t : TaskRecord) → Dict.get tasks i ≡ some t → t.task_id ≡ i

-- Every row's dependencies are rows.
abbrev pub IsClosed : Dict String TaskRecord → Type 0
IsClosed tasks =
    (i : String) (t : TaskRecord)
    → Dict.get tasks i ≡ some t
    → all_of (Dict.has tasks) t.dependency_ids ≡ true

-- The row that `lease_next_task` leases: it is stored, eligible, and no eligible row comes before
-- it by priority and age.
pub record IsChosen (tasks : Dict String TaskRecord) (now : ℕ) (run_id : Option String)
    (t : TaskRecord) : Type 0 where
  pub found : Dict.get tasks t.task_id ≡ some t
  pub eligible : is_eligible tasks now run_id t ≡ true
  pub first :
      (i : String) (u : TaskRecord)
      → Dict.get tasks i ≡ some u
      → is_eligible tasks now run_id u ≡ true
      → comes_first t u ≡ true

-- What `lease_next_task` does.
pub data Leasing (s : Repository) (worker_id : String) (now lease_seconds : ℕ)
    (run_id : Option String) : Reply (Option TaskRecord) → Type 0 where
  refused :
      lease_seconds < 1
      → Leasing s worker_id now lease_seconds run_id (err lease_seconds_not_positive, s)
  idle :
      1 ≤ lease_seconds
      → ((i : String) (u : TaskRecord)
          → Dict.get s.tasks i ≡ some u
          → is_eligible s.tasks now run_id u ≡ false)
      → Leasing s worker_id now lease_seconds run_id (ok none, s)
  leases :
      (t : TaskRecord)
      → 1 ≤ lease_seconds
      → IsChosen s.tasks now run_id t
      → Leasing s worker_id now lease_seconds run_id (
        ok (some (leased_copy t worker_id now lease_seconds)),
        record s { tasks = Dict.put s.tasks t.task_id (leased_copy t worker_id now lease_seconds) },
      )

module _ (s : Repository) (worker_id : String) (now lease_seconds : ℕ) (run_id : Option String)
    (keyed : IsKeyed s.tasks) where
  -- The head of the sorted candidates is the chosen row.
  chosen :
      (t : TaskRecord) (rest : List TaskRecord)
      → sort_by comes_first (select (is_eligible s.tasks now run_id) (values s.tasks)) ≡ t ∷ rest
      → IsChosen s.tasks now run_id t
  chosen t rest e =
      let sorted : IsSorted comes_first (t ∷ rest) = rw e at (
        sort_by-IsSorted comes_first comes_first-total comes_first_trans
          (select (is_eligible s.tasks now run_id) (values s.tasks))) in
      let inside : Memᴰ t
          (sort_by comes_first (select (is_eligible s.tasks now run_id) (values s.tasks))) =
        rw e (Memᴰ.head refl) in
      let (stored, fits) =
        mem-of-select (is_eligible s.tasks now run_id) (values s.tasks)
          (mem-of-sort_by comes_first _ inside) in
      let (i, at) = get_of_value s.tasks keyed.distinct stored in
      record {
        found = subst (λ k. Dict.get s.tasks k ≡ some t) (sym (keyed.own_id i t at)) at;
        eligible = fits;
        first = λ j u found fits_u. before u sorted.0 (
            mem-cons_cases (
              rw e at (
                mem-sort_by comes_first _ (
                  mem-select (is_eligible s.tasks now run_id) (values s.tasks)
                    (value_of_get s.tasks j found) fits_u))));
      }
    where
      before :
          (u : TaskRecord)
          → All (λ y. comes_first t y ≡ true) rest
          → (u ≡ t) ⊎ Memᴰ u rest
          → comes_first t u ≡ true
      before u h (inl same) = rw same (ground arith)
      before u h (inr later) = All_mem (λ y. comes_first t y ≡ true) rest h later

  none_eligible :
      sort_by comes_first (select (is_eligible s.tasks now run_id) (values s.tasks)) ≡ []
      → (i : String) (u : TaskRecord) → Dict.get s.tasks i ≡ some u
      → is_eligible s.tasks now run_id u ≡ false
  none_eligible e i u found = elim (Bool-cases (is_eligible s.tasks now run_id u)) [
    | inr no_fit ↦ no_fit
    | inl fits ↦ absurd (
        not_in_nil (
          rw e at (
            mem-sort_by comes_first _ (
              mem-select (is_eligible s.tasks now run_id) (values s.tasks)
                (value_of_get s.tasks i found) fits))))
  ]
    where
      not_in_nil : Memᴰ u [] → ⊥
      not_in_nil m = elim m [ ]

  sorted-Leasing :
      (found : List TaskRecord)
      → 1 ≤ lease_seconds
      → sort_by comes_first (select (is_eligible s.tasks now run_id) (values s.tasks)) ≡ found
      → Leasing s worker_id now lease_seconds run_id
          (lease_first s worker_id now lease_seconds found)
  sorted-Leasing [] long e = idle long (none_eligible e)
  sorted-Leasing (t ∷ rest) long e = leases t long (chosen t rest e)

  All-known :
      (l : Dict String TaskRecord)
      → ((i : String) (t : TaskRecord)
          → Memᴰ (i, t) l
          → all_of (Dict.has s.tasks) t.dependency_ids ≡ true)
      → All (λ t. all_of (Dict.has s.tasks) t.dependency_ids ≡ true) (values l)
  All-known [] h = tt
  All-known ((i, t) ∷ l) h = (h i t (Memᴰ.head refl), All-known l λ j u m. h j u (Memᴰ.tail m))

  -- `lease_next_task` refuses a lease of no length; otherwise it leases the eligible row that comes
  -- first by descending priority and then by age, and returns `None` exactly when no row is
  -- eligible. It never fails on a missing dependency.
  pub lease_next_task-Leasing :
      IsClosed s.tasks
      → Leasing s worker_id now lease_seconds run_id
          (lease_next_task s worker_id now lease_seconds run_id)
  unfolding lease_next_task
  lease_next_task-Leasing closed = elim (Bool-cases (ltb lease_seconds 1)) [
    | inl short ↦ rw short (refused (ground arith))
    | inr long ↦
        rw
          (
            long,
            candidates-known s.tasks now run_id (values s.tasks)
                (All-known s.tasks λ i t m. closed i t (get_of_mem s.tasks keyed.distinct m)),
          )
          (sorted-Leasing _ (ground arith) refl)
  ]
