-- ===== src/Harness/Repository/Invariant/Distinct.antt =====
-- Every request keeps the ids of the task table distinct.
use multi_agent_based_intell.Prelude.{
  ℕ, ◌+◌, String, ◌≡◌, true, Option, none, some, List, [], ◌∷◌, Result, ok, err, arith, string_eq,
  is_unique,
}
use multi_agent_based_intell.Prelude.Dict
use multi_agent_based_intell.Prelude.Dict.{Dict, keys, get-put, put-is_unique}
use multi_agent_based_intell.Harness.Repository.Records.{
  TaskRecord, Repository, RepositoryError, Reply, EventRecord, OutboxRecord,
}
use multi_agent_based_intell.Harness.Repository.Tasks.{
  add_tasks, task_ids, check_tasks, put_tasks, added, complete_task, complete_found, completed_copy,
  beaten_copy, beat_found, heartbeat_task, released_copy, recover_each, recover_expired_leases,
}
use multi_agent_based_intell.Harness.Repository.Events.{
  complete_task_with_event_outbox, complete_with_found,
}
use multi_agent_based_intell.Harness.Repository.Leasing.{
  IsKeyed, IsClosed, Leasing, refused, idle, leases, lease_next_task-Leasing,
}
use multi_agent_based_intell.Harness.Repository.Requests.{
  Request, new_run, new_tasks, lease, complete, beat, recover, checkpoint, event, event_with_outbox,
  complete_with_event, lease_batch, mark_published, perform,
}
use multi_agent_based_intell.Harness.Repository.Changes.{
  create_run-tasks, save_checkpoint-tasks, append_event-tasks, append_with-tasks,
  lease_outbox-tasks, mark_published-tasks,
}

abbrev pub IsDistinct : Dict String TaskRecord → Type 0
IsDistinct d = is_unique (keys d) ≡ true

put_tasks-IsDistinct :
    (d : Dict String TaskRecord) (records : List TaskRecord)
    → IsDistinct d
    → IsDistinct (put_tasks d records)
unfolding put_tasks
put_tasks-IsDistinct d [] h = h
put_tasks-IsDistinct d (x ∷ rest) h =
    put_tasks-IsDistinct (Dict.put d x.task_id x) rest (put-is_unique d x.task_id x h)

recover_each-IsDistinct :
    (now : ℕ) (l d : Dict String TaskRecord) (n : ℕ)
    → IsDistinct d
    → IsDistinct (recover_each now l (n, d)).1
unfolding recover_each
recover_each-IsDistinct now [] d n h = h
recover_each-IsDistinct now ((k, t) ∷ rest) d n h = ground (
  arith,
  recover_each-IsDistinct now rest (Dict.put d k (released_copy t now)) (n + 1)
      (put-is_unique d k (released_copy t now) h),
  recover_each-IsDistinct now rest d n h,
)

module _ (s : Repository) (h : IsDistinct s.tasks) where
  complete-IsDistinct :
      (k w : String) (now : ℕ) (o : Option TaskRecord)
      → IsDistinct (complete_found s k w now o).1.tasks
  complete-IsDistinct k w now none = h
  complete-IsDistinct k w now (some t) =
      ground (arith, put-is_unique s.tasks k (completed_copy t now) h)

  beat-IsDistinct :
      (k w : String) (now seconds : ℕ) (o : Option TaskRecord)
      → IsDistinct (beat_found s k w now seconds o).1.tasks
  beat-IsDistinct k w now seconds none = h
  beat-IsDistinct k w now seconds (some t) =
      ground (arith, put-is_unique s.tasks k (beaten_copy t now seconds) h)

  complete_with-IsDistinct :
      (k w : String) (now : ℕ) (e : EventRecord) (ob : OutboxRecord) (o : Option TaskRecord)
      → IsDistinct (complete_with_found s k w now e ob o).1.tasks
  complete_with-IsDistinct k w now e ob none = h
  complete_with-IsDistinct k w now e ob (some t) =
      ground (arith, put-is_unique s.tasks k (completed_copy t now) h)

  lease-IsDistinct :
      (w : String) (now seconds : ℕ) (run : Option String) (q : Reply (Option TaskRecord))
      → Leasing s w now seconds run q
      → IsDistinct q.1.tasks
  lease-IsDistinct w now seconds run _ (refused short) = h
  lease-IsDistinct w now seconds run _ (idle long no_row) = h
  lease-IsDistinct w now seconds run _ (leases t long c) = put-is_unique s.tasks t.task_id _ h

  added-IsDistinct :
      (records : List TaskRecord) (m : Result RepositoryError (Unit {0}))
      → IsDistinct (added s records m).1.tasks
  added-IsDistinct records (err e) = h
  added-IsDistinct records (ok _) = put_tasks-IsDistinct s.tasks records h

pub perform-IsDistinct :
    (s : Repository) (r : Request)
    → IsKeyed s.tasks
    → IsClosed s.tasks
    → IsDistinct (perform s r).tasks
unfolding perform
perform-IsDistinct s (new_run run) c closed = rw (create_run-tasks s run) c.distinct
perform-IsDistinct s (new_tasks records) c closed =
    unfold add_tasks in
    ground (
      arith,
      c.distinct,
      added-IsDistinct s c.distinct records (check_tasks s (task_ids records) records),
    )
perform-IsDistinct s (lease w now seconds run) c closed =
    lease-IsDistinct s c.distinct w now seconds run _
      (lease_next_task-Leasing s w now seconds run c closed)
perform-IsDistinct s (complete k w now) c closed =
    unfold complete_task in complete-IsDistinct s c.distinct k w now _
perform-IsDistinct s (beat k w now seconds) c closed =
    unfold heartbeat_task in
    ground (arith, c.distinct, beat-IsDistinct s c.distinct k w now seconds (Dict.get s.tasks k))
perform-IsDistinct s (recover now) c closed =
    unfold recover_expired_leases in recover_each-IsDistinct now s.tasks s.tasks 0 c.distinct
perform-IsDistinct s (complete_with_event k w now e o) c closed =
    unfold complete_task_with_event_outbox in complete_with-IsDistinct s c.distinct k w now e o _
perform-IsDistinct s (checkpoint p) c closed = rw (save_checkpoint-tasks s p) c.distinct
perform-IsDistinct s (event e) c closed = rw (append_event-tasks s e) c.distinct
perform-IsDistinct s (event_with_outbox e o) c closed = rw (append_with-tasks s e o) c.distinct
perform-IsDistinct s (lease_batch w now seconds limit) c closed =
    rw (lease_outbox-tasks s w now seconds limit) c.distinct
perform-IsDistinct s (mark_published k w now) c closed =
    rw (mark_published-tasks s k w now) c.distinct
