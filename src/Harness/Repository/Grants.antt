-- ===== src/Harness/Repository/Grants.antt =====
-- What a worker that leased a task may rely on.
use multi_agent_based_intell.Prelude.{
  ℕ, String, ◌≡◌, refl, subst, inl, inr, Bool, true, Option, some, List, [], ◌∷◌, ok, arith,
  string_eq, All, all_of, Option-cases,
}
use multi_agent_based_intell.Prelude.Dict
use multi_agent_based_intell.Prelude.Dict.{Dict, values, keys, get-put_self}
use multi_agent_based_intell.Harness.Repository.Records.{TaskRecord, Repository, Reply, lease_end}
use multi_agent_based_intell.Harness.Repository.Tasks.{leased_copy, lease_next_task}
use multi_agent_based_intell.Harness.Repository.Leasing.{
  is_done, Leasing, refused, idle, leases, lease_next_task-Leasing,
}
use multi_agent_based_intell.Harness.Repository.Requests.{Request, lease, perform, perform_all}
use multi_agent_based_intell.Harness.Repository.Invariant.{IsSound}
use multi_agent_based_intell.Harness.Repository.Life.{IsHeld, final_forever}

-- What the worker that leased a task may rely on.
pub record IsGranted (s : Repository) (requests : List Request) (w : String) (until : ℕ)
    (t : TaskRecord) : Type 0 where
  pub row : Dict.get s.tasks t.task_id ≡ some t
  pub held : IsHeld t w until
  pub dependencies : All (λ d. is_done (perform_all s requests).tasks d ≡ true) t.dependency_ids

All-of_all_of :
    (p : String → Bool) (xs : List String) → all_of p xs ≡ true → All (λ x. p x ≡ true) xs
All-of_all_of p [] h = tt
All-of_all_of p (x ∷ xs) h = (ground arith, All-of_all_of p xs (ground arith))

done_forever :
    (s : Repository) (requests : List Request) (d : String)
    → IsSound s
    → is_done s.tasks d ≡ true
    → is_done (perform_all s requests).tasks d ≡ true
done_forever s requests d sound done = elim (Option-cases (Dict.get s.tasks d)) [
  | inl absent ↦ absurd (ground arith)
  | inr (p, found) ↦ ground (arith, final_forever s requests d p sound (ground arith) found)
]

All-done_forever :
    (s : Repository) (requests : List Request) (ds : List String)
    → IsSound s
    → All (λ d. is_done s.tasks d ≡ true) ds
    → All (λ d. is_done (perform_all s requests).tasks d ≡ true) ds
All-done_forever s requests [] sound h = tt
All-done_forever s requests (d ∷ ds) sound h =
    (done_forever s requests d sound h.0, All-done_forever s requests ds sound h.1)

module _ (s : Repository) (w : String) (now seconds : ℕ) (run : Option String)
    (t : TaskRecord) where
  Leasing-row :
      (q : Reply (Option TaskRecord))
      → Leasing s w now seconds run q
      → q.0 ≡ ok (some t)
      → (Dict.get q.1.tasks t.task_id ≡ some t)
        × IsHeld t w (lease_end now seconds)
        × All (λ d. is_done s.tasks d ≡ true) t.dependency_ids
  Leasing-row _ (refused short) e = absurd (cc)
  Leasing-row _ (idle long no_row) e = absurd (cc)
  Leasing-row _ (leases u long c) e =
      let same : leased_copy u w now seconds ≡ t = ground arith in
      subst
        (λ x.
          (Dict.get (Dict.put s.tasks u.task_id (leased_copy u w now seconds)) x.task_id ≡ some x)
          × IsHeld x w (lease_end now seconds)
          × All (λ d. is_done s.tasks d ≡ true) x.dependency_ids)
        same
        (
          get-put_self s.tasks u.task_id (leased_copy u w now seconds),
          record { state_leased = refl; owner = refl; end = refl },
          All-of_all_of (is_done s.tasks) u.dependency_ids (ground (arith, c.eligible)),
        )

-- A leased task is the caller's until the lease's end, and all of its dependencies have succeeded,
-- now and after any further requests.
pub lease_next_task-IsGranted :
    (s : Repository) (w : String) (now seconds : ℕ) (run : Option String) (t : TaskRecord)
    (requests : List Request)
    → IsSound s
    → (lease_next_task s w now seconds run).0 ≡ ok (some t)
    → IsGranted (lease_next_task s w now seconds run).1 requests w (lease_end now seconds) t
lease_next_task-IsGranted s w now seconds run t requests sound e =
    let (row, held, deps) =
      Leasing-row s w now seconds run t _
        (lease_next_task-Leasing s w now seconds run sound.keyed sound.closed) e in
    record {
      row = row;
      held = held;
      dependencies =
          unfold perform_all perform in
          All-done_forever s (lease w now seconds run ∷ requests) t.dependency_ids sound deps;
    }
