-- ===== src/Harness/Repository/Events.antt =====
-- Events, their outbox and the checkpoints of `MemoryHarnessRepository`.
use multi_agent_based_intell.Prelude.{
  ℕ, zero, suc, ◌+◌, String, Bool, true, false, not, ◌&&◌, ◌||◌, Option, none, some, List, [], ◌∷◌,
  map, ok, err, leb, ltb, ◌==◌, string_eq, nat_eq, pair_eq, contains, if◌then◌else◌, select,
  is_some,
}
use multi_agent_based_intell.Prelude.Strings.{str_le}
use multi_agent_based_intell.Prelude.Dict
use multi_agent_based_intell.Prelude.Dict.{Dict, values}
use multi_agent_based_intell.Prelude.Sorting.{sort_by}
use multi_agent_based_intell.Harness.Repository.Records.{
  TaskRecord, EventRecord, CheckpointRecord, OutboxRecord, Repository, run_missing,
  limits_not_positive, lease_not_owned, task_missing, event_task_mismatch, outbox_event_mismatch,
  event_key_exists, missing_key, lease_end, Reply,
}
use multi_agent_based_intell.Harness.Repository.Tasks.{
  is_leased, is_owner, completed_copy, lease_free,
}

unfoldable pub save_checkpoint : Repository → CheckpointRecord → Reply Bool
save_checkpoint s checkpoint =
    let key : String × ℕ = (checkpoint.task_id, checkpoint.step) in
    if Dict.has s.checkpoints key
    then (ok false, s)
    else if not (Dict.has s.tasks checkpoint.task_id)
    then (err task_missing, s)
    else (ok true, record s { checkpoints = Dict.put s.checkpoints key checkpoint })

abbrev pub checkpoints_of : String → Dict (String × ℕ) CheckpointRecord → List CheckpointRecord
checkpoints_of task_id d =
    map (λ p. p.1) (select (λ (p : (String × ℕ) × CheckpointRecord). p.0.0 == task_id) d)

-- `max(..., key=step)`: the first of the largest.
unfoldable pub max_step : CheckpointRecord → List CheckpointRecord → CheckpointRecord
max_step best [] = best
max_step best (c ∷ rest) = max_step (if ltb best.step c.step then c else best) rest

abbrev pub latest_of : List CheckpointRecord → Option CheckpointRecord
latest_of [] = none
latest_of (c ∷ rest) = some (max_step c rest)

unfoldable pub latest_checkpoint : Repository → String → Option CheckpointRecord
latest_checkpoint s task_id = latest_of (checkpoints_of task_id s.checkpoints)

abbrev pub event_key : EventRecord → String × String
event_key event = (event.run_id, event.idempotency_key)

unfoldable pub append_event : Repository → EventRecord → Reply Bool
append_event s event =
    if contains s.event_keys (event_key event)
    then (ok false, s)
    else if not (Dict.has s.runs event.run_id)
    then (err run_missing, s)
    else (
      ok true,
      record s {
        events = Dict.put s.events event.event_id event;
        event_keys = event_key event ∷ s.event_keys;
      },
    )

-- The key (created_at, event_id).
abbrev pub event_before : EventRecord → EventRecord → Bool
event_before a b =
    ltb a.created_at b.created_at || (leb a.created_at b.created_at && str_le a.event_id b.event_id)

unfoldable pub list_events : Repository → String → List EventRecord
list_events s run_id = sort_by event_before (select (λ e. e.run_id == run_id) (values s.events))

unfoldable pub append_event_with_outbox : Repository → EventRecord → OutboxRecord → Reply Bool
append_event_with_outbox s event outbox =
    if contains s.event_keys (event_key event)
    then (ok false, s)
    else if not (Dict.has s.runs event.run_id)
    then (err run_missing, s)
    else if not (outbox.event_id == event.event_id)
    then (err outbox_event_mismatch, s)
    else (
      ok true,
      record s {
        events = Dict.put s.events event.event_id event;
        event_keys = event_key event ∷ s.event_keys;
        outbox = Dict.put s.outbox outbox.outbox_id outbox;
      },
    )

abbrev pub names_task : Option String → String → Bool
names_task none task_id = false
names_task (some named) task_id = named == task_id

abbrev pub completed_with :
    Repository → TaskRecord → String → ℕ → EventRecord → OutboxRecord → Repository
completed_with s task task_id now event outbox = record s {
  tasks = Dict.put s.tasks task_id (completed_copy task now);
  events = Dict.put s.events event.event_id event;
  event_keys = event_key event ∷ s.event_keys;
  outbox = Dict.put s.outbox outbox.outbox_id outbox;
}

-- The rest of `complete_task_with_event_outbox`, by what stands under `task_id`.
abbrev pub complete_with_found :
    Repository
    → String
    → String
    → ℕ
    → EventRecord
    → OutboxRecord
    → Option TaskRecord
    → Reply (Unit {0})
complete_with_found s task_id worker_id now event outbox none = (err missing_key, s)
complete_with_found s task_id worker_id now event outbox (some task) =
    if not (is_leased task.state) || not (is_owner task.lease_owner worker_id)
    then (err lease_not_owned, s)
    else if not (names_task event.task_id task_id) || not (event.run_id == task.run_id)
    then (err event_task_mismatch, s)
    else if not (outbox.event_id == event.event_id)
    then (err outbox_event_mismatch, s)
    else if contains s.event_keys (event_key event)
    then (err event_key_exists, s)
    else (ok tt, completed_with s task task_id now event outbox)

unfoldable pub complete_task_with_event_outbox :
    Repository → String → String → ℕ → EventRecord → OutboxRecord → Reply (Unit {0})
complete_task_with_event_outbox s task_id worker_id now event outbox =
    complete_with_found s task_id worker_id now event outbox (Dict.get s.tasks task_id)

-- The filter of `lease_outbox`.
abbrev pub can_lease : ℕ → OutboxRecord → Bool
can_lease now item =
    not (is_some item.published_at) && leb item.available_at now && lease_free item.lease_until now

-- The key (created_at, outbox_id).
abbrev pub outbox_before : OutboxRecord → OutboxRecord → Bool
outbox_before a b =
    ltb a.created_at b.created_at
    || (leb a.created_at b.created_at && str_le a.outbox_id b.outbox_id)

-- `[:limit]`
unfoldable pub take : ℕ → List OutboxRecord → List OutboxRecord
take zero items = []
take (suc n) [] = []
take (suc n) (item ∷ rest) = item ∷ take n rest

abbrev pub leased_item : String → ℕ → ℕ → OutboxRecord → OutboxRecord
leased_item worker_id now lease_seconds item = record item {
  lease_owner = some worker_id;
  lease_until = some (lease_end now lease_seconds);
  attempt = item.attempt + 1;
}

unfoldable pub put_items : Dict String OutboxRecord → List OutboxRecord → Dict String OutboxRecord
put_items d [] = d
put_items d (item ∷ rest) = put_items (Dict.put d item.outbox_id item) rest

-- The rows that `lease_outbox` chooses, leased.
abbrev pub outbox_batch : Repository → String → ℕ → ℕ → ℕ → List OutboxRecord
outbox_batch s worker_id now lease_seconds limit =
    map (leased_item worker_id now lease_seconds)
      (take limit (sort_by outbox_before (select (can_lease now) (values s.outbox))))

unfoldable pub lease_outbox : Repository → String → ℕ → ℕ → ℕ → Reply (List OutboxRecord)
lease_outbox s worker_id now lease_seconds limit =
    if ltb lease_seconds 1 || ltb limit 1
    then (err limits_not_positive, s)
    else let leased = outbox_batch s worker_id now lease_seconds limit in
      (ok leased, record s { outbox = put_items s.outbox leased })

abbrev pub published_item : OutboxRecord → ℕ → OutboxRecord
published_item item now = record item {
  published_at = some now;
  lease_owner = none;
  lease_until = none;
}

-- The rest of `mark_outbox_published`, by what stands under `outbox_id`.
abbrev pub mark_found : Repository → String → String → ℕ → Option OutboxRecord → Bool × Repository
mark_found s outbox_id worker_id now none = (false, s)
mark_found s outbox_id worker_id now (some item) =
    if not (is_owner item.lease_owner worker_id) || is_some item.published_at
    then (false, s)
    else (true, record s { outbox = Dict.put s.outbox outbox_id (published_item item now) })

unfoldable pub mark_outbox_published : Repository → String → String → ℕ → Bool × Repository
mark_outbox_published s outbox_id worker_id now =
    mark_found s outbox_id worker_id now (Dict.get s.outbox outbox_id)
