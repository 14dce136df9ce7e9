-- ===== src/Harness/Repository/Tasks.antt =====
-- The task queue of `MemoryHarnessRepository`: adding, leasing, completing, heartbeats, recovery.
use multi_agent_based_intell.Prelude.{
  ℕ, ◌+◌, String, Bool, true, false, not, ◌&&◌, ◌||◌, Option, none, some, List, [], ◌∷◌, map,
  Result, ok, err, ◌>>=◌, leb, ltb, ◌==◌, string_eq, contains, is_unique, any_of, all_of,
  if◌then◌else◌,
}
use multi_agent_based_intell.Prelude.Dict
use multi_agent_based_intell.Prelude.Dict.{Dict, values, keys}
use multi_agent_based_intell.Prelude.Int.{ltb_ℤ}
use multi_agent_based_intell.Prelude.Sorting.{sort_by}
use multi_agent_based_intell.Domain.Messaging.{TaskState, is_succeeded}
use multi_agent_based_intell.Harness.Repository.Records.{
  RunRecord, TaskRecord, Repository, RepositoryError, run_exists, run_missing, task_ids_not_unique,
  task_exists, dependencies_missing, lease_seconds_not_positive, lease_not_owned, missing_key,
  lease_end, Reply,
}

unfoldable pub create_run : Repository → RunRecord → Reply (Unit {0})
create_run s run =
    if Dict.has s.runs run.run_id
    then (err run_exists, s)
    else (ok tt, record s { runs = Dict.put s.runs run.run_id run })

abbrev pub task_ids : List TaskRecord → List String
task_ids records = map (λ t. t.task_id) records

-- The checks on one incoming task: its run, and its dependencies among old and incoming tasks.
abbrev pub check_task : Repository → List String → TaskRecord → Result RepositoryError (Unit {0})
check_task s incoming_ids task =
    if not (Dict.has s.runs task.run_id)
    then err run_missing
    else if not (all_of (λ d. contains incoming_ids d || Dict.has s.tasks d) task.dependency_ids)
    then err dependencies_missing
    else ok tt

unfoldable pub check_tasks :
    Repository → List String → List TaskRecord → Result RepositoryError (Unit {0})
check_tasks s incoming_ids [] = ok tt
check_tasks s incoming_ids (task ∷ rest) =
    check_task s incoming_ids task >>= λ _. check_tasks s incoming_ids rest

-- `self.tasks.update(...)`
unfoldable pub put_tasks : Dict String TaskRecord → List TaskRecord → Dict String TaskRecord
put_tasks d [] = d
put_tasks d (task ∷ rest) = put_tasks (Dict.put d task.task_id task) rest

abbrev pub added :
    Repository → List TaskRecord → Result RepositoryError (Unit {0}) → Reply (Unit {0})
added s records (err e) = (err e, s)
added s records (ok _) = (ok tt, record s { tasks = put_tasks s.tasks records })

unfoldable pub add_tasks : Repository → List TaskRecord → Reply (Unit {0})
add_tasks s task_records =
    let incoming_ids = task_ids task_records in
    if not (is_unique incoming_ids)
    then (err task_ids_not_unique, s)
    else if any_of (λ i. Dict.has s.tasks i) incoming_ids
    then (err task_exists, s)
    else added s task_records (check_tasks s incoming_ids task_records)

-- `state in {PENDING, WAITING_RETRY}`
abbrev pub is_waiting : TaskState → Bool
is_waiting TaskState.pending = true
is_waiting TaskState.waiting_retry = true
is_waiting _ = false

abbrev pub in_run : Option String → String → Bool
in_run none task_run = true
in_run (some run_id) task_run = task_run == run_id

abbrev pub lease_free : Option ℕ → ℕ → Bool
lease_free none now = true
lease_free (some until) now = ltb until now

-- The tests of `lease_next_task` before the dependencies.
abbrev pub is_ready : ℕ → Option String → TaskRecord → Bool
is_ready now run_id task =
    in_run run_id task.run_id
    && is_waiting task.state
    && (leb task.available_at now && ltb now task.deadline)
    && lease_free task.lease_until now

-- any(self.tasks[d].state is not SUCCEEDED for d in dependency_ids)
unfoldable pub is_blocked : Dict String TaskRecord → List String → Result RepositoryError Bool
is_blocked tasks [] = ok false
is_blocked tasks (d ∷ rest) =
    let later = is_blocked tasks rest in
    elim (Dict.get tasks d) [
      | none ↦ err missing_key
      | some parent ↦ if is_succeeded parent.state then later else ok true
    ]

abbrev pub keep_free :
    TaskRecord → List TaskRecord → Bool → Result RepositoryError (List TaskRecord)
keep_free task rest true = ok rest
keep_free task rest false = ok (task ∷ rest)

-- The loop that fills `candidates`.
unfoldable pub candidates :
    Dict String TaskRecord
    → ℕ
    → Option String
    → List TaskRecord
    → Result RepositoryError (List TaskRecord)
candidates tasks now run_id [] = ok []
candidates tasks now run_id (task ∷ rest) =
    let later = candidates tasks now run_id rest in
    if is_ready now run_id task
    then (is_blocked tasks task.dependency_ids >>= λ b. later >>= λ found. keep_free task found b)
    else later

-- The key (-priority, created_at).
abbrev pub comes_first : TaskRecord → TaskRecord → Bool
comes_first a b =
    ltb_ℤ b.priority a.priority
    || (not (ltb_ℤ a.priority b.priority) && leb a.created_at b.created_at)

abbrev pub leased_copy : TaskRecord → String → ℕ → ℕ → TaskRecord
leased_copy task worker_id now lease_seconds = record task {
  state = TaskState.leased;
  lease_owner = some worker_id;
  lease_until = some (lease_end now lease_seconds);
  heartbeat_at = some now;
  attempt = task.attempt + 1;
  updated_at = now;
}

abbrev pub lease_first : Repository → String → ℕ → ℕ → List TaskRecord → Reply (Option TaskRecord)
lease_first s worker_id now lease_seconds [] = (ok none, s)
lease_first s worker_id now lease_seconds (selected ∷ _) =
    let leased = leased_copy selected worker_id now lease_seconds in
    (ok (some leased), record s { tasks = Dict.put s.tasks selected.task_id leased })

abbrev pub lease_from :
    Repository
    → String
    → ℕ
    → ℕ
    → Result RepositoryError (List TaskRecord)
    → Reply (Option TaskRecord)
lease_from s worker_id now lease_seconds (err e) = (err e, s)
lease_from s worker_id now lease_seconds (ok found) =
    lease_first s worker_id now lease_seconds (sort_by comes_first found)

unfoldable pub lease_next_task :
    Repository → String → ℕ → ℕ → Option String → Reply (Option TaskRecord)
lease_next_task s worker_id now lease_seconds run_id =
    if ltb lease_seconds 1
    then (err lease_seconds_not_positive, s)
    else lease_from s worker_id now lease_seconds (candidates s.tasks now run_id (values s.tasks))

abbrev pub is_owner : Option String → String → Bool
is_owner none worker_id = false
is_owner (some owner) worker_id = owner == worker_id

abbrev pub is_leased : TaskState → Bool
is_leased TaskState.leased = true
is_leased _ = false

abbrev pub completed_copy : TaskRecord → ℕ → TaskRecord
completed_copy task now = record task {
  state = TaskState.succeeded;
  lease_owner = none;
  lease_until = none;
  heartbeat_at = some now;
  updated_at = now;
}

-- The rest of `complete_task`, by what stands under `task_id`.
abbrev pub complete_found : Repository → String → String → ℕ → Option TaskRecord → Reply (Unit {0})
complete_found s task_id worker_id now none = (err missing_key, s)
complete_found s task_id worker_id now (some task) =
    if not (is_leased task.state) || not (is_owner task.lease_owner worker_id)
    then (err lease_not_owned, s)
    else (ok tt, record s { tasks = Dict.put s.tasks task_id (completed_copy task now) })

unfoldable pub complete_task : Repository → String → String → ℕ → Reply (Unit {0})
complete_task s task_id worker_id now =
    complete_found s task_id worker_id now (Dict.get s.tasks task_id)

unfoldable pub get_task : Repository → String → Option TaskRecord
get_task s task_id = Dict.get s.tasks task_id

-- `state in {LEASED, RUNNING, WAITING_TOOL}`
abbrev pub can_beat : TaskState → Bool
can_beat TaskState.leased = true
can_beat TaskState.running = true
can_beat TaskState.waiting_tool = true
can_beat _ = false

abbrev pub lease_alive : Option ℕ → ℕ → Bool
lease_alive none now = false
lease_alive (some until) now = ltb now until

abbrev pub beaten_copy : TaskRecord → ℕ → ℕ → TaskRecord
beaten_copy task now lease_seconds = record task {
  heartbeat_at = some now;
  lease_until = some (lease_end now lease_seconds);
  updated_at = now;
}

-- The rest of `heartbeat_task`, by what stands under `task_id`.
abbrev pub beat_found : Repository → String → String → ℕ → ℕ → Option TaskRecord → Reply Bool
beat_found s task_id worker_id now lease_seconds none = (ok false, s)
beat_found s task_id worker_id now lease_seconds (some task) =
    if is_owner task.lease_owner worker_id
      && (can_beat task.state && lease_alive task.lease_until now)
    then (
      ok true,
      record s { tasks = Dict.put s.tasks task_id (beaten_copy task now lease_seconds) },
    )
    else (ok false, s)

unfoldable pub heartbeat_task : Repository → String → String → ℕ → ℕ → Reply Bool
heartbeat_task s task_id worker_id now lease_seconds =
    if ltb lease_seconds 1
    then (err lease_seconds_not_positive, s)
    else beat_found s task_id worker_id now lease_seconds (Dict.get s.tasks task_id)

-- `state in {LEASED, RUNNING, WAITING_TOOL, VALIDATING}`
abbrev pub is_active : TaskState → Bool
is_active TaskState.leased = true
is_active TaskState.running = true
is_active TaskState.waiting_tool = true
is_active TaskState.validating = true
is_active _ = false

abbrev pub lease_over : Option ℕ → ℕ → Bool
lease_over none now = false
lease_over (some until) now = ltb until now

abbrev pub is_expired : ℕ → TaskRecord → Bool
is_expired now task = is_active task.state && lease_over task.lease_until now

abbrev pub released_copy : TaskRecord → ℕ → TaskRecord
released_copy task now = record task {
  state = if leb task.max_attempts task.attempt then TaskState.failed else TaskState.waiting_retry;
  lease_owner = none;
  lease_until = none;
  last_error_code = some "lease_expired";
  updated_at = now;
}

-- The loop over `tuple(self.tasks.items())`, a snapshot, which writes to the table.
unfoldable pub recover_each :
    ℕ → List (String × TaskRecord) → ℕ × Dict String TaskRecord → ℕ × Dict String TaskRecord
recover_each now [] acc = acc
recover_each now ((task_id, task) ∷ rest) (recovered, tasks) = recover_each now rest (
    if is_expired now task
    then (recovered + 1, Dict.put tasks task_id (released_copy task now))
    else (recovered, tasks))

unfoldable pub recover_expired_leases : Repository → ℕ → ℕ × Repository
recover_expired_leases s now =
    let (recovered, tasks) = recover_each now s.tasks (0, s.tasks) in
    (recovered, record s { tasks = tasks })
