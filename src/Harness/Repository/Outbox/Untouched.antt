-- ===== src/Harness/Repository/Outbox/Untouched.antt =====
-- The methods of the repository that leave the outbox alone.
use multi_agent_based_intell.Prelude.{
  ℕ, String, ◌≡◌, refl, Option, none, some, List, [], ◌∷◌, Result, ok, err, arith, string_eq,
  pair_eq,
}
use multi_agent_based_intell.Prelude.Dict
use multi_agent_based_intell.Prelude.Dict.{Dict, values, keys, get-put, put-is_unique, get_of_value}
use multi_agent_based_intell.Harness.Repository.Records.{
  TaskRecord, EventRecord, CheckpointRecord, RunRecord, Repository, RepositoryError,
}
use multi_agent_based_intell.Harness.Repository.Tasks.{
  create_run, add_tasks, added, check_tasks, task_ids, lease_next_task, lease_from, lease_first,
  complete_task, complete_found, heartbeat_task, beat_found, recover_expired_leases, candidates,
}
use multi_agent_based_intell.Harness.Repository.Events.{save_checkpoint, append_event}

module _ (s : Repository) where
  pub create_run-outbox : (run : RunRecord) → (create_run s run).1.outbox ≡ s.outbox
  unfolding create_run
  create_run-outbox run = ground arith

  added-outbox :
      (records : List TaskRecord) (m : Result RepositoryError (Unit {0}))
      → (added s records m).1.outbox ≡ s.outbox
  added-outbox records (ok _) = refl
  added-outbox records (err e) = refl

  pub add_tasks-outbox : (records : List TaskRecord) → (add_tasks s records).1.outbox ≡ s.outbox
  unfolding add_tasks
  add_tasks-outbox records =
      ground (arith, added-outbox records (check_tasks s (task_ids records) records))

  lease_first-outbox :
      (w : String) (now seconds : ℕ) (found : List TaskRecord)
      → (lease_first s w now seconds found).1.outbox ≡ s.outbox
  lease_first-outbox w now seconds [] = refl
  lease_first-outbox w now seconds (t ∷ rest) = refl

  lease_from-outbox :
      (w : String) (now seconds : ℕ) (m : Result RepositoryError (List TaskRecord))
      → (lease_from s w now seconds m).1.outbox ≡ s.outbox
  lease_from-outbox w now seconds (err e) = refl
  lease_from-outbox w now seconds (ok found) = lease_first-outbox w now seconds _

  pub lease_next_task-outbox :
      (w : String) (now seconds : ℕ) (run : Option String)
      → (lease_next_task s w now seconds run).1.outbox ≡ s.outbox
  unfolding lease_next_task
  lease_next_task-outbox w now seconds run =
      ground (arith, lease_from-outbox w now seconds (candidates s.tasks now run (values s.tasks)))

  complete-outbox :
      (k w : String) (now : ℕ) (o : Option TaskRecord)
      → (complete_found s k w now o).1.outbox ≡ s.outbox
  complete-outbox k w now none = refl
  complete-outbox k w now (some t) = ground arith

  pub complete_task-outbox :
      (k w : String) (now : ℕ) → (complete_task s k w now).1.outbox ≡ s.outbox
  unfolding complete_task
  complete_task-outbox k w now = complete-outbox k w now (Dict.get s.tasks k)

  beat-outbox :
      (k w : String) (now seconds : ℕ) (o : Option TaskRecord)
      → (beat_found s k w now seconds o).1.outbox ≡ s.outbox
  beat-outbox k w now seconds none = refl
  beat-outbox k w now seconds (some t) = ground arith

  pub heartbeat-outbox :
      (k w : String) (now seconds : ℕ) → (heartbeat_task s k w now seconds).1.outbox ≡ s.outbox
  unfolding heartbeat_task
  heartbeat-outbox k w now seconds =
      ground (arith, beat-outbox k w now seconds (Dict.get s.tasks k))

  pub recover-outbox : (now : ℕ) → (recover_expired_leases s now).1.outbox ≡ s.outbox
  unfolding recover_expired_leases
  recover-outbox now = refl

  pub save_checkpoint-outbox : (c : CheckpointRecord) → (save_checkpoint s c).1.outbox ≡ s.outbox
  unfolding save_checkpoint
  save_checkpoint-outbox c = ground arith

  pub append_event-outbox : (e : EventRecord) → (append_event s e).1.outbox ≡ s.outbox
  unfolding append_event
  append_event-outbox e = ground arith
