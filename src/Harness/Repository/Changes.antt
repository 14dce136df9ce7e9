-- ===== src/Harness/Repository/Changes.antt =====
-- The requests, and the row of a task under each of them.
pub mod Rows
pub mod Adding
pub mod Recovering
use multi_agent_based_intell.Prelude.{ℕ, String, ◌≡◌, refl, if_both, Bool, arith, ltb, string_eq}
use multi_agent_based_intell.Prelude.Dict
use multi_agent_based_intell.Prelude.Dict.{Dict}
use multi_agent_based_intell.Harness.Repository.Records.{
  Repository, Reply, EventRecord, OutboxRecord, RunRecord, CheckpointRecord,
}
use multi_agent_based_intell.Harness.Repository.Tasks.{create_run, complete_task, heartbeat_task}
use multi_agent_based_intell.Harness.Repository.Events.{
  save_checkpoint, append_event, append_event_with_outbox, complete_task_with_event_outbox,
  lease_outbox, mark_outbox_published,
}
use multi_agent_based_intell.Harness.Repository.Leasing.{IsKeyed, IsClosed, lease_next_task-Leasing}
use multi_agent_based_intell.Harness.Repository.Requests.{
  Request, new_run, new_tasks, lease, complete, beat, recover, checkpoint, event, event_with_outbox,
  complete_with_event, lease_batch, mark_published, perform,
}
use multi_agent_based_intell.Harness.Repository.Changes.Rows.{Change, kept}
use multi_agent_based_intell.Harness.Repository.Changes.Rows.{
  complete-Change, beat-Change, complete_with-Change, lease-Change,
}
use multi_agent_based_intell.Harness.Repository.Changes.Adding.{add-Change}
use multi_agent_based_intell.Harness.Repository.Changes.Recovering.{get-recover, recover-Change}

-- The methods that leave the task table alone.
pub create_run-tasks : (s : Repository) (run : RunRecord) → (create_run s run).1.tasks ≡ s.tasks
unfolding create_run
create_run-tasks s run = ground arith

pub save_checkpoint-tasks :
    (s : Repository) (c : CheckpointRecord) → (save_checkpoint s c).1.tasks ≡ s.tasks
unfolding save_checkpoint
save_checkpoint-tasks s c = ground arith

pub append_event-tasks : (s : Repository) (e : EventRecord) → (append_event s e).1.tasks ≡ s.tasks
unfolding append_event
append_event-tasks s e = ground arith

pub append_with-tasks :
    (s : Repository) (e : EventRecord) (o : OutboxRecord)
    → (append_event_with_outbox s e o).1.tasks ≡ s.tasks
unfolding append_event_with_outbox
append_with-tasks s e o = ground arith

pub lease_outbox-tasks :
    (s : Repository) (w : String) (now seconds limit : ℕ)
    → (lease_outbox s w now seconds limit).1.tasks ≡ s.tasks
unfolding lease_outbox
lease_outbox-tasks s w now seconds limit = ground arith

pub mark_published-tasks :
    (s : Repository) (k w : String) (now : ℕ) → (mark_outbox_published s k w now).1.tasks ≡ s.tasks
unfolding mark_outbox_published
mark_published-tasks s k w now = ground arith

-- Every request treats the row of each task as `Change` says.
pub perform-Change :
    (s : Repository) (r : Request) (i : String)
    → IsKeyed s.tasks
    → IsClosed s.tasks
    → Change s.tasks i r (Dict.get s.tasks i) (Dict.get (perform s r).tasks i)
unfolding perform
perform-Change s (new_run run) i keyed closed =
    unfold create_run in rw (create_run-tasks s run) (kept _ _)
perform-Change s (new_tasks records) i keyed closed = add-Change s i records
perform-Change s (lease w now seconds run) i keyed closed =
    lease-Change s i w now seconds run _ (lease_next_task-Leasing s w now seconds run keyed closed)
perform-Change s (complete k w now) i keyed closed =
    unfold complete_task in complete-Change s i k w now (Dict.get s.tasks k) refl
perform-Change s (beat k w now seconds) i keyed closed =
    unfold heartbeat_task in
    if_both
      (λ (q : Reply Bool).
        Change s.tasks i (beat k w now seconds) (Dict.get s.tasks i) (Dict.get q.1.tasks i))
      (ltb seconds 1) (λ short. kept _ _)
      (λ long. beat-Change s i k w now seconds (Dict.get s.tasks k) (ground arith) refl)
perform-Change s (recover now) i keyed closed =
    rw (get-recover s now i keyed) (recover-Change s now i (Dict.get s.tasks i))
perform-Change s (complete_with_event k w now e o) i keyed closed =
    unfold complete_task_with_event_outbox in
    complete_with-Change s i k w now e o (Dict.get s.tasks k) refl
perform-Change s (checkpoint c) i keyed closed = rw (save_checkpoint-tasks s c) (kept _ _)
perform-Change s (event e) i keyed closed = rw (append_event-tasks s e) (kept _ _)
perform-Change s (event_with_outbox e o) i keyed closed = rw (append_with-tasks s e o) (kept _ _)
perform-Change s (lease_batch w now seconds limit) i keyed closed =
    rw (lease_outbox-tasks s w now seconds limit) (kept _ _)
perform-Change s (mark_published k w now) i keyed closed =
    rw (mark_published-tasks s k w now) (kept _ _)
