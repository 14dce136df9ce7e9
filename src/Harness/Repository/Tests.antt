-- ===== src/Harness/Repository/Tests.antt =====
-- Runs of the repository on small inputs, and the theorems at such inputs.
use multi_agent_based_intell.Prelude.{
  ℕ, String, ◌≡◌, ◌≢◌, refl, true, false, Option, none, some, List, [], ◌∷◌, ok, arith, eq_iff,
  ◌++◌, string_eq, pair_eq, length, select,
}
use multi_agent_based_intell.Prelude.Dict
use multi_agent_based_intell.Prelude.Dict.{values}
use multi_agent_based_intell.Prelude.Int.{pos}
use multi_agent_based_intell.Prelude.Sorting.{sort_by}
use multi_agent_based_intell.Domain.Json.{end}
use multi_agent_based_intell.Domain.Messaging.{RunState, TaskState, EventType}
use multi_agent_based_intell.Harness.Repository.Records.{
  RunRecord, TaskRecord, EventRecord, OutboxRecord, Repository, empty_repository, lease_end,
}
use multi_agent_based_intell.Harness.Repository.Tasks.{
  create_run, add_tasks, check_tasks, put_tasks, lease_next_task, candidates, is_blocked,
  complete_task, recover_expired_leases, is_expired, leased_copy,
}
use multi_agent_based_intell.Harness.Repository.Events.{
  append_event, complete_task_with_event_outbox,
}
use multi_agent_based_intell.Harness.Repository.Requests.{
  Request, new_run, new_tasks, lease, complete, recover, lease_batch, mark_published, perform,
  perform_all,
}
use multi_agent_based_intell.Harness.Repository.Leasing.{Leasing, lease_next_task-Leasing}
use multi_agent_based_intell.Harness.Repository.Invariant.{
  IsSound, empty_repository-IsSound, perform_all-IsSound,
}
use multi_agent_based_intell.Harness.Repository.Life.{
  IsBudgeted, attempts_bounded, final_forever, lease_exclusive,
}
use multi_agent_based_intell.Harness.Repository.Grants.{IsGranted, lease_next_task-IsGranted}
use multi_agent_based_intell.Harness.Repository.Events.{append_event_with_outbox}
use multi_agent_based_intell.Harness.Repository.Tasks.{heartbeat_task}
use multi_agent_based_intell.Harness.Repository.Recovery.{Treated, recover_exact}
use multi_agent_based_intell.Harness.Repository.Outbox.{IsFiled}
use multi_agent_based_intell.Harness.Repository.Delivery.{outbox_exclusive}
use multi_agent_based_intell.Harness.Repository.EventLog.{
  Completion, complete_task_with_event_outbox-Completion, Appended,
  append_event_with_outbox-Appended,
}
use multi_agent_based_intell.Harness.Repository.Heartbeats.{Heartbeat, heartbeat_task-Heartbeat}

abbrev run : RunRecord
run = record {
  run_id = "run";
  state = RunState.planning;
  request_schema_version = "1.0";
  revision = 0;
  trace_id = "trace";
  cancellation_requested = false;
  created_at = 0;
  updated_at = 0;
}

abbrev task : String → List String → TaskRecord
task task_id dependency_ids = record {
  task_id = task_id;
  run_id = "run";
  task_type = "search";
  recipient_agent = "agent";
  state = TaskState.pending;
  dependency_ids = dependency_ids;
  priority = pos 1;
  attempt = 0;
  max_attempts = 2;
  available_at = 0;
  deadline = 1000;
  lease_owner = none;
  lease_until = none;
  heartbeat_at = none;
  idempotency_key = task_id;
  last_error_code = none;
  created_at = 0;
  updated_at = 0;
}

abbrev started : EventRecord
started = record {
  event_id = "event";
  run_id = "run";
  task_id = some "plan";
  event_type = EventType.artifact_published;
  idempotency_key = "key";
  payload = end;
  created_at = 1;
}

abbrev row : OutboxRecord
row = record {
  outbox_id = "row";
  event_id = "event";
  topic = "tasks";
  payload = end;
  available_at = 1;
  lease_owner = none;
  lease_until = none;
  attempt = 0;
  published_at = none;
  created_at = 1;
}

abbrev setup : List Request
setup = new_run run ∷ new_tasks (task "plan" [] ∷ task "book" ("plan" ∷ []) ∷ []) ∷ []

abbrev ready : Repository
ready = perform_all empty_repository setup

ready-IsSound : IsSound ready
ready-IsSound = perform_all-IsSound empty_repository setup empty_repository-IsSound

abbrev plan_leased : TaskRecord
plan_leased = leased_copy (task "plan" []) "worker" 10 1

plan_leased_row :
    Dict.get (perform_all empty_repository (setup ++ (lease "worker" 10 1 none ∷ []))).tasks "plan"
    ≡ some plan_leased
unfolding perform_all perform create_run add_tasks check_tasks put_tasks lease_next_task candidates
    sort_by is_blocked Dict.get Dict.put
plan_leased_row = refl

abbrev working : Repository
working = perform_all empty_repository (setup ++ (lease "worker" 10 1 none ∷ []))

working-IsSound : IsSound working
working-IsSound =
    perform_all-IsSound empty_repository (setup ++ (lease "worker" 10 1 none ∷ []))
      empty_repository-IsSound

abbrev course : List Request
course = setup ++ (lease "worker" 10 1 none ∷ complete "plan" "worker" 20 ∷ [])

abbrev plan_done : TaskRecord
plan_done = record {
  task_id = "plan";
  run_id = "run";
  task_type = "search";
  recipient_agent = "agent";
  state = TaskState.succeeded;
  dependency_ids = [];
  priority = pos 1;
  attempt = 1;
  max_attempts = 2;
  available_at = 0;
  deadline = 1000;
  lease_owner = none;
  lease_until = none;
  heartbeat_at = some 20;
  idempotency_key = "plan";
  last_error_code = none;
  created_at = 0;
  updated_at = 20;
}

plan_done_row : Dict.get (perform_all empty_repository course).tasks "plan" ≡ some plan_done
unfolding perform_all perform create_run add_tasks check_tasks put_tasks lease_next_task candidates
    sort_by is_blocked complete_task Dict.get Dict.put
plan_done_row = refl

perform_all-IsSound_example : IsSound (perform_all empty_repository course)
perform_all-IsSound_example = perform_all-IsSound empty_repository course empty_repository-IsSound

lease_next_task-Leasing_example :
    Leasing ready "worker" 10 1 none (lease_next_task ready "worker" 10 1 none)
lease_next_task-Leasing_example =
    lease_next_task-Leasing ready "worker" 10 1 none ready-IsSound.keyed ready-IsSound.closed

no_task : (j : String) (u : TaskRecord) → Dict.get empty_repository.tasks j ≢ some u
unfolding Dict.get
no_task j u e = cc

attempts_bounded_example : IsBudgeted plan_done
attempts_bounded_example =
    attempts_bounded empty_repository course "plan" plan_done empty_repository-IsSound
      (
        tt,
        (
          (fresh (task "plan" []) refl refl, (fresh (task "book" ("plan" ∷ [])) refl refl, tt)),
          (tt, (tt, tt)),
        ),
      )
      no_rows plan_done_row
  where
    fresh : (t : TaskRecord) → t.attempt ≡ 0 → t.max_attempts ≡ 2 → IsBudgeted t
    fresh t a b = record { within = omega arith; left = λ w. omega arith }

    no_rows :
        (j : String) (u : TaskRecord) → Dict.get empty_repository.tasks j ≡ some u → IsBudgeted u
    no_rows j u e = absurd (no_task j u e)

final_forever_example :
    Dict.get (perform_all (perform_all empty_repository course) (recover 5000000 ∷ [])).tasks "plan"
    ≡ some plan_done
final_forever_example =
    final_forever (perform_all empty_repository course) (recover 5000000 ∷ []) "plan" plan_done
      (perform_all-IsSound empty_repository course empty_repository-IsSound) refl plan_done_row

lease_exclusive_example :
    Dict.get (perform_all working (complete "plan" "thief" 20 ∷ recover 30 ∷ [])).tasks "plan"
    ≡ some plan_leased
lease_exclusive_example =
    lease_exclusive working (complete "plan" "thief" 20 ∷ recover 30 ∷ []) "plan" plan_leased
      "worker" 1000010 working-IsSound (record { state_leased = refl; owner = refl; end = refl })
      (ground (arith, eq_iff "thief" "worker"), (omega arith, tt)) plan_leased_row

plan_given : (lease_next_task ready "worker" 10 1 none).0 ≡ ok (some plan_leased)
unfolding perform_all perform create_run add_tasks check_tasks put_tasks lease_next_task candidates
    sort_by is_blocked Dict.get Dict.put
plan_given = refl

lease_next_task-IsGranted_example :
    IsGranted
      (lease_next_task ready "worker" 10 1 none).1
      (recover 30 ∷ [])
      "worker"
      (lease_end 10 1)
      plan_leased
lease_next_task-IsGranted_example =
    lease_next_task-IsGranted ready "worker" 10 1 none plan_leased (recover 30 ∷ []) ready-IsSound
      plan_given

recover_exact_example :
    ((recover_expired_leases working 2000000).0
      ≡ length (select (is_expired 2000000) (values working.tasks)))
    × ((row : TaskRecord) × (Dict.get (recover_expired_leases working 2000000).1.tasks "plan"
          ≡ some row)
        × Treated 2000000 plan_leased row)
recover_exact_example =
    recover_exact working 2000000 "plan" plan_leased working-IsSound.keyed plan_leased_row

empty-IsFiled : IsFiled []
unfolding Dict.get
empty-IsFiled = record { distinct = refl; own_id = λ i x e. absurd (cc) }

one_row-IsFiled : (x : OutboxRecord) → IsFiled ((x.outbox_id, x) ∷ [])
unfolding Dict.get
one_row-IsFiled x = record {
  distinct = refl;
  own_id = λ i y e. ground (arith, eq_iff x.outbox_id i);
}

ready_outbox : ready.outbox ≡ []
unfolding perform_all perform create_run add_tasks check_tasks put_tasks Dict.get Dict.put
ready_outbox = refl

ready-IsFiled : IsFiled ready.outbox
ready-IsFiled = rw ready_outbox empty-IsFiled

-- The tables with one outbox row.
abbrev holding : OutboxRecord → Repository
holding x = record {
  runs = ("run", run) ∷ [];
  tasks = [];
  events = [];
  checkpoints = [];
  outbox = (x.outbox_id, x) ∷ [];
  event_keys = [];
}

abbrev row_with : Option String → Option ℕ → Option ℕ → OutboxRecord
row_with owner until published = record {
  outbox_id = "row";
  event_id = "event";
  topic = "tasks";
  payload = end;
  available_at = 1;
  lease_owner = owner;
  lease_until = until;
  attempt = 1;
  published_at = published;
  created_at = 1;
}

held_row :
    Dict.get (holding (row_with (some "publisher") (some 100) none)).outbox "row"
    ≡ some (row_with (some "publisher") (some 100) none)
unfolding Dict.get
held_row = refl

outbox_exclusive_example :
    Dict.get
      (perform_all
        (holding (row_with (some "publisher") (some 100) none))
        (lease_batch "other" 50 1 5 ∷ mark_published "row" "other" 60 ∷ [])).outbox
      "row"
    ≡ some (row_with (some "publisher") (some 100) none)
outbox_exclusive_example =
    outbox_exclusive (holding (row_with (some "publisher") (some 100) none))
      (lease_batch "other" 50 1 5 ∷ mark_published "row" "other" 60 ∷ []) "row"
      (row_with (some "publisher") (some 100) none) "publisher" 100
      (one_row-IsFiled (row_with (some "publisher") (some 100) none))
      (record { owner = refl; end = refl })
      (omega arith, (ground (arith, eq_iff "other" "publisher"), tt)) held_row

published_row :
    Dict.get (holding (row_with none none (some 90))).outbox "row"
    ≡ some (row_with none none (some 90))
unfolding Dict.get
published_row = refl

run_known : (x : OutboxRecord) → Dict.has (holding x).runs "run" ≡ true
unfolding Dict.get
run_known x = refl

event_taken : (append_event (holding row) started).0 ≡ ok true
unfolding append_event Dict.get
event_taken = refl

complete_task_with_event_outbox-Completion_example :
    Completion working "plan" "worker" 20 started row
      (complete_task_with_event_outbox working "plan" "worker" 20 started row)
complete_task_with_event_outbox-Completion_example =
    complete_task_with_event_outbox-Completion working "plan" "worker" 20 started row

heartbeat_task-Heartbeat_example :
    Heartbeat working "plan" "worker" 20 5 (heartbeat_task working "plan" "worker" 20 5)
heartbeat_task-Heartbeat_example = heartbeat_task-Heartbeat working "plan" "worker" 20 5

append_event_with_outbox-Appended_example :
    Appended ready started row (append_event_with_outbox ready started row)
append_event_with_outbox-Appended_example = append_event_with_outbox-Appended ready started row
