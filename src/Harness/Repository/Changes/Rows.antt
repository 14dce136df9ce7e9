-- ===== src/Harness/Repository/Changes/Rows.antt =====
-- The life of one task row: how each request may change what stands under a task id.
use multi_agent_based_intell.Prelude.{
  ℕ, ◌≤◌, String, ◌≡◌, sym, ◌∙◌, ap, subst, if_both, inl, inr, Bool, true, not, ◌&&◌, ◌||◌, Option,
  none, some, List, Memᴰ, arith, eq_iff, ◌==◌, string_eq, pair_eq, contains, Bool-cases,
}
use multi_agent_based_intell.Prelude.Dict
use multi_agent_based_intell.Prelude.Dict.{
  Dict, values, keys, get-put, contains-keys, put-is_unique,
}
use multi_agent_based_intell.Harness.Repository.Records.{
  TaskRecord, Repository, Reply, EventRecord, OutboxRecord,
}
use multi_agent_based_intell.Harness.Repository.Tasks.{
  leased_copy, completed_copy, complete_found, beaten_copy, beat_found, is_owner, is_leased,
  can_beat, lease_alive, is_expired, released_copy,
}
use multi_agent_based_intell.Harness.Repository.Events.{complete_with_found, names_task, event_key}
use multi_agent_based_intell.Harness.Repository.Leasing.{
  is_eligible, Leasing, refused, idle, leases,
}
use multi_agent_based_intell.Harness.Repository.Requests.{
  Request, new_tasks, lease, complete, beat, recover, complete_with_event,
}

-- How request `r` changes the row of task `i`: from absent or present, to absent or present.
pub data Change (tasks : Dict String TaskRecord) (i : String)
    : Request → Option TaskRecord → Option TaskRecord → Type 0 where
  kept : (r : Request) (o : Option TaskRecord) → Change tasks i r o o
  inserted :
      (records : List TaskRecord) (t : TaskRecord)
      → Memᴰ t records
      → t.task_id ≡ i
      → Change tasks i (new_tasks records) none (some t)
  leased :
      (w : String) (now seconds : ℕ) (run : Option String) (t : TaskRecord)
      → 1 ≤ seconds
      → is_eligible tasks now run t ≡ true
      → Change tasks i (lease w now seconds run) (some t) (some (leased_copy t w now seconds))
  completed :
      (k w : String) (now : ℕ) (t : TaskRecord)
      → k ≡ i
      → is_leased t.state ≡ true
      → is_owner t.lease_owner w ≡ true
      → Change tasks i (complete k w now) (some t) (some (completed_copy t now))
  completed_with_event :
      (k w : String) (now : ℕ) (e : EventRecord) (o : OutboxRecord) (t : TaskRecord)
      → k ≡ i
      → is_leased t.state ≡ true
      → is_owner t.lease_owner w ≡ true
      → Change tasks i (complete_with_event k w now e o) (some t) (some (completed_copy t now))
  beaten :
      (k w : String) (now seconds : ℕ) (t : TaskRecord)
      → k ≡ i
      → 1 ≤ seconds
      → is_owner t.lease_owner w ≡ true
      → can_beat t.state ≡ true
      → lease_alive t.lease_until now ≡ true
      → Change tasks i (beat k w now seconds) (some t) (some (beaten_copy t now seconds))
  released :
      (now : ℕ) (t : TaskRecord)
      → is_expired now t ≡ true
      → Change tasks i (recover now) (some t) (some (released_copy t now))

-- A write of a new row over the old one, seen under every id.
pub put-Change :
    {tasks : Dict String TaskRecord} {r : Request} (d : Dict String TaskRecord) (k : String)
    (t t' : TaskRecord) (i : String)
    → Dict.get d k ≡ some t
    → (k ≡ i → Change tasks i r (some t) (some t'))
    → Change tasks i r (Dict.get d i) (Dict.get (Dict.put d k t') i)
put-Change {tasks} {r} d k t t' i found c = elim (Bool-cases (k == i)) [
  | inr other ↦ rw (get-put, other) (kept r (Dict.get d i))
  | inl same ↦
      let here = (eq_iff k i).0 same in
      rw (get-put, same)
        (subst (λ o. Change tasks i r o (some t')) (sym found ∙ ap (Dict.get d) here) (c here))
]

module _ (s : Repository) (i : String) where
  -- The change of row `i` from `s` to the tables of a reply.
  abbrev After : Request → Repository → Type 0
  After r s' = Change s.tasks i r (Dict.get s.tasks i) (Dict.get s'.tasks i)

  pub complete-Change :
      (k w : String) (now : ℕ) (o : Option TaskRecord)
      → Dict.get s.tasks k ≡ o
      → After (complete k w now) (complete_found s k w now o).1
  complete-Change k w now none e = kept _ _
  complete-Change k w now (some t) e =
      if_both (λ (q : Reply (Unit {0})). After (complete k w now) q.1)
        (not (is_leased t.state) || not (is_owner t.lease_owner w)) (λ no. kept _ _)
        λ owned.
          put-Change s.tasks k t (completed_copy t now) i e
            λ here. completed k w now t here (ground arith) (ground arith)

  pub beat-Change :
      (k w : String) (now seconds : ℕ) (o : Option TaskRecord)
      → 1 ≤ seconds
      → Dict.get s.tasks k ≡ o
      → After (beat k w now seconds) (beat_found s k w now seconds o).1
  beat-Change k w now seconds none long e = kept _ _
  beat-Change k w now seconds (some t) long e =
      if_both (λ (q : Reply Bool). After (beat k w now seconds) q.1)
        (is_owner t.lease_owner w && (can_beat t.state && lease_alive t.lease_until now))
        (λ alive.
          put-Change s.tasks k t (beaten_copy t now seconds) i e (λ here.
            beaten k w now seconds t here long (ground arith) (ground arith) (ground arith)))
        (λ no. kept _ _)

  pub complete_with-Change :
      (k w : String) (now : ℕ) (ev : EventRecord) (ob : OutboxRecord) (o : Option TaskRecord)
      → Dict.get s.tasks k ≡ o
      → After (complete_with_event k w now ev ob) (complete_with_found s k w now ev ob o).1
  complete_with-Change k w now ev ob none e = kept _ _
  complete_with-Change k w now ev ob (some t) e =
      let P = λ (q : Reply (Unit {0})). After (complete_with_event k w now ev ob) q.1 in
      if_both P (not (is_leased t.state) || not (is_owner t.lease_owner w)) (λ no. kept _ _)
        λ owned.
          if_both P (not (names_task ev.task_id k) || not (ev.run_id == t.run_id)) (λ no. kept _ _)
            λ _.
              if_both P (not (ob.event_id == ev.event_id)) (λ no. kept _ _)
                λ _.
                  if_both P (contains s.event_keys (event_key ev)) (λ no. kept _ _)
                    λ _. put-Change s.tasks k t (completed_copy t now) i e λ here.
                      completed_with_event k w now ev ob t here (ground arith) (ground arith)

  pub lease-Change :
      (w : String) (now seconds : ℕ) (run : Option String) (q : Reply (Option TaskRecord))
      → Leasing s w now seconds run q
      → After (lease w now seconds run) q.1
  lease-Change w now seconds run _ (refused short) = kept _ _
  lease-Change w now seconds run _ (idle long none_fits) = kept _ _
  lease-Change w now seconds run _ (leases t long c) =
      put-Change s.tasks t.task_id t (leased_copy t w now seconds) i c.found
        (λ _. leased w now seconds run t long c.eligible)
