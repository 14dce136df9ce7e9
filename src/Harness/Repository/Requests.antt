-- ===== src/Harness/Repository/Requests.antt =====
-- The mutating methods of `MemoryHarnessRepository` as requests, which the lock serves in turn.
use multi_agent_based_intell.Prelude.{ℕ, String, Option, List, [], ◌∷◌}
use multi_agent_based_intell.Harness.Repository.Records.{
  RunRecord, TaskRecord, EventRecord, CheckpointRecord, OutboxRecord, Repository,
}
use multi_agent_based_intell.Harness.Repository.Tasks.{
  create_run, add_tasks, lease_next_task, complete_task, heartbeat_task, recover_expired_leases,
}
use multi_agent_based_intell.Harness.Repository.Events.{
  save_checkpoint, append_event, append_event_with_outbox, complete_task_with_event_outbox,
  lease_outbox, mark_outbox_published,
}

pub data Request : Type 0 where
  new_run : RunRecord → Request
  new_tasks : List TaskRecord → Request
  lease : (worker_id : String) (now lease_seconds : ℕ) (run_id : Option String) → Request
  complete : (task_id worker_id : String) (now : ℕ) → Request
  beat : (task_id worker_id : String) (now lease_seconds : ℕ) → Request
  recover : (now : ℕ) → Request
  checkpoint : CheckpointRecord → Request
  event : EventRecord → Request
  event_with_outbox : EventRecord → OutboxRecord → Request
  complete_with_event :
      (task_id worker_id : String) (now : ℕ) → EventRecord → OutboxRecord → Request
  lease_batch : (worker_id : String) (now lease_seconds limit : ℕ) → Request
  mark_published : (outbox_id worker_id : String) (now : ℕ) → Request

-- The tables after one request; a request that raises ends only its own caller.
unfoldable pub perform : Repository → Request → Repository
perform s (new_run run) = (create_run s run).1
perform s (new_tasks records) = (add_tasks s records).1
perform s (lease worker_id now seconds run_id) = (lease_next_task s worker_id now seconds run_id).1
perform s (complete task_id worker_id now) = (complete_task s task_id worker_id now).1
perform s (beat task_id worker_id now seconds) = (heartbeat_task s task_id worker_id now seconds).1
perform s (recover now) = (recover_expired_leases s now).1
perform s (checkpoint c) = (save_checkpoint s c).1
perform s (event e) = (append_event s e).1
perform s (event_with_outbox e o) = (append_event_with_outbox s e o).1
perform s (complete_with_event task_id worker_id now e o) =
    (complete_task_with_event_outbox s task_id worker_id now e o).1
perform s (lease_batch worker_id now seconds limit) = (lease_outbox s worker_id now seconds limit).1
perform s (mark_published outbox_id worker_id now) =
    (mark_outbox_published s outbox_id worker_id now).1

unfoldable pub perform_all : Repository → List Request → Repository
perform_all s [] = s
perform_all s (r ∷ rest) = perform_all (perform s r) rest
