-- ===== src/Harness/Repository/EventLog.antt =====
-- Events: idempotent appends, and completion in one transaction with an event and its outbox row.
use multi_agent_based_intell.Prelude.{
  ℕ, String, ◌≡◌, refl, if_both, true, false, not, ◌||◌, Option, none, some, ok, err, arith, eq_iff,
  ◌==◌, string_eq, pair_eq, contains, ◌&&◌, ◌∷◌, ◌≢◌, Bool, Option-cases, inl, inr,
}
use multi_agent_based_intell.Prelude.Dict
use multi_agent_based_intell.Prelude.Dict.{get-put, get-put_self}
use multi_agent_based_intell.Domain.Messaging.{TaskState}
use multi_agent_based_intell.Harness.Repository.Records.{
  TaskRecord, EventRecord, OutboxRecord, Repository, RepositoryError, RunRecord, run_missing,
  missing_key, lease_not_owned, event_task_mismatch, outbox_event_mismatch, event_key_exists, Reply,
}
use multi_agent_based_intell.Harness.Repository.Tables.{SameBut, put-SameBut}
use multi_agent_based_intell.Harness.Repository.Tasks.{is_leased, is_owner}
use multi_agent_based_intell.Harness.Repository.Events.{
  event_key, append_event, append_event_with_outbox, names_task, completed_with,
  complete_with_found, complete_task_with_event_outbox,
}

-- Appending is idempotent: once an event was accepted, any event with its run and idempotency key
-- is turned away with `False` and changes nothing.
pub append_event_once :
    (s : Repository) (e e' : EventRecord)
    → (append_event s e).0 ≡ ok true
    → event_key e' ≡ event_key e
    → append_event (append_event s e).1 e' ≡ (ok false, (append_event s e).1)
unfolding append_event
append_event_once s e e' accepted same =
    ground (arith, eq_iff e.run_id e'.run_id, eq_iff e.idempotency_key e'.idempotency_key)

-- The tables after an event and its outbox row are appended.
pub record IsAppended (s : Repository) (e : EventRecord) (x : OutboxRecord) (s' : Repository)
    : Type 0 where
  pub event : Dict.get s'.events e.event_id ≡ some e
  pub other_events : SameBut e.event_id s.events s'.events
  pub item : Dict.get s'.outbox x.outbox_id ≡ some x
  pub other_items : SameBut x.outbox_id s.outbox s'.outbox
  pub used : s'.event_keys ≡ (e.run_id, e.idempotency_key) ∷ s.event_keys
  pub tasks : s'.tasks ≡ s.tasks
  pub runs : s'.runs ≡ s.runs
  pub checkpoints : s'.checkpoints ≡ s.checkpoints

-- What `append_event_with_outbox` does, by the first test that decides.
pub data Appended (s : Repository) (e : EventRecord) (x : OutboxRecord) : Reply Bool → Type 0 where
  repeats :
      contains s.event_keys (e.run_id, e.idempotency_key) ≡ true → Appended s e x (ok false, s)
  without_run :
      contains s.event_keys (e.run_id, e.idempotency_key) ≡ false
      → Dict.get s.runs e.run_id ≡ none
      → Appended s e x (err run_missing, s)
  of_another :
      contains s.event_keys (e.run_id, e.idempotency_key) ≡ false
      → (run : RunRecord) → Dict.get s.runs e.run_id ≡ some run
      → x.event_id ≢ e.event_id
      → Appended s e x (err outbox_event_mismatch, s)
  appends :
      contains s.event_keys (e.run_id, e.idempotency_key) ≡ false
      → (run : RunRecord) → Dict.get s.runs e.run_id ≡ some run
      → x.event_id ≡ e.event_id
      → (s' : Repository) → IsAppended s e x s'
      → Appended s e x (ok true, s')

-- `append_event_with_outbox` turns away an event whose run and idempotency key have been used, and
-- raises where the run is missing or the outbox row is of another event, changing nothing. Otherwise
-- it stores the event and the row under their ids, in one step, and changes nothing else.
pub append_event_with_outbox-Appended :
    (s : Repository) (e : EventRecord) (x : OutboxRecord)
    → Appended s e x (append_event_with_outbox s e x)
unfolding append_event_with_outbox
append_event_with_outbox-Appended s e x =
    if_both (Appended s e x) (contains s.event_keys (event_key e)) repeats λ fresh.
      elim (Option-cases (Dict.get s.runs e.run_id)) [
        | inl absent ↦ rw absent (without_run fresh absent)
        | inr (run, at) ↦ rw at (
            if_both (Appended s e x) (not (x.event_id == e.event_id))
              (λ other.
                of_another fresh run at
                  λ same. absurd (ground (arith, other, eq_iff x.event_id e.event_id)))
              λ same.
                appends fresh run at (ground (arith, eq_iff x.event_id e.event_id)) _ (record {
                  event = get-put_self s.events e.event_id e;
                  other_events = put-SameBut s.events e.event_id e;
                  item = get-put_self s.outbox x.outbox_id x;
                  other_items = put-SameBut s.outbox x.outbox_id x;
                  used = refl;
                  tasks = refl;
                  runs = refl;
                  checkpoints = refl;
                }))
      ]

-- Only the idempotency key is checked: an accepted event that reuses an event id replaces the
-- event that was stored under it.
pub append_event_replaces :
    (s : Repository) (e : EventRecord)
    → contains s.event_keys (event_key e) ≡ false
    → Dict.has s.runs e.run_id ≡ true
    → ((append_event s e).0 ≡ ok true) × (Dict.get (append_event s e).1.events e.event_id ≡ some e)
unfolding append_event
append_event_replaces s e fresh run = ground (arith, get-put_self s.events e.event_id e)

-- The tables after the completion of task `k`: the task has succeeded and is nobody's, its event and
-- its outbox row are stored, the idempotency key is used, and nothing else has changed.
pub record IsCompleted (s : Repository) (k : String) (t : TaskRecord) (now : ℕ) (e : EventRecord)
    (x : OutboxRecord) (s' : Repository) : Type 0 where
  pub task :
      Dict.get s'.tasks k
      ≡ some (record t {
        state = TaskState.succeeded;
        lease_owner = none;
        lease_until = none;
        heartbeat_at = some now;
        updated_at = now;
      })
  pub other_tasks : SameBut k s.tasks s'.tasks
  pub event : Dict.get s'.events e.event_id ≡ some e
  pub other_events : SameBut e.event_id s.events s'.events
  pub item : Dict.get s'.outbox x.outbox_id ≡ some x
  pub other_items : SameBut x.outbox_id s.outbox s'.outbox
  pub used : s'.event_keys ≡ (e.run_id, e.idempotency_key) ∷ s.event_keys
  pub runs : s'.runs ≡ s.runs
  pub checkpoints : s'.checkpoints ≡ s.checkpoints

-- Why a completion is refused: the first of the tests that fails.
pub data Refusal (s : Repository) (k w : String) (e : EventRecord) (x : OutboxRecord)
    : RepositoryError → Type 0 where
  absent : Dict.get s.tasks k ≡ none → Refusal s k w e x missing_key
  unowned :
      (t : TaskRecord)
      → Dict.get s.tasks k ≡ some t
      → (is_leased t.state && is_owner t.lease_owner w) ≡ false
      → Refusal s k w e x lease_not_owned
  other_task :
      (t : TaskRecord)
      → Dict.get s.tasks k ≡ some t
      → (names_task e.task_id k && e.run_id == t.run_id) ≡ false
      → Refusal s k w e x event_task_mismatch
  other_event : (x.event_id == e.event_id) ≡ false → Refusal s k w e x outbox_event_mismatch
  repeated :
      contains s.event_keys (e.run_id, e.idempotency_key) ≡ true
      → Refusal s k w e x event_key_exists

-- What `complete_task_with_event_outbox` does.
pub data Completion (s : Repository) (k w : String) (now : ℕ) (e : EventRecord) (x : OutboxRecord)
    : Reply (Unit {0}) → Type 0 where
  fails :
      (error : RepositoryError) → Refusal s k w e x error → Completion s k w now e x (err error, s)
  completes :
      (t : TaskRecord) (s' : Repository)
      → Dict.get s.tasks k ≡ some t
      → t.state ≡ TaskState.leased
      → t.lease_owner ≡ some w
      → e.task_id ≡ some k
      → e.run_id ≡ t.run_id
      → x.event_id ≡ e.event_id
      → contains s.event_keys (e.run_id, e.idempotency_key) ≡ false
      → IsCompleted s k t now e x s'
      → Completion s k w now e x (ok tt, s')

completed_with-IsCompleted :
    (s : Repository) (t : TaskRecord) (k : String) (now : ℕ) (e : EventRecord) (x : OutboxRecord)
    → IsCompleted s k t now e x (completed_with s t k now e x)
completed_with-IsCompleted s t k now e x = record {
  task = get-put_self s.tasks k _;
  other_tasks = put-SameBut s.tasks k _;
  event = get-put_self s.events e.event_id e;
  other_events = put-SameBut s.events e.event_id e;
  item = get-put_self s.outbox x.outbox_id x;
  other_items = put-SameBut s.outbox x.outbox_id x;
  used = refl;
  runs = refl;
  checkpoints = refl;
}

leased_of : (state : TaskState) → is_leased state ≡ true → state ≡ TaskState.leased
leased_of state h = ground arith

owner_of : (o : Option String) (w : String) → is_owner o w ≡ true → o ≡ some w
owner_of none w h = absurd (cc)
owner_of (some v) w h = ground (arith, eq_iff v w)

named_of : (o : Option String) (k : String) → names_task o k ≡ true → o ≡ some k
named_of none k h = absurd (cc)
named_of (some j) k h = ground (arith, eq_iff j k)

found-Completion :
    (s : Repository) (k w : String) (now : ℕ) (e : EventRecord) (x : OutboxRecord)
    (o : Option TaskRecord)
    → Dict.get s.tasks k ≡ o
    → Completion s k w now e x (complete_with_found s k w now e x o)
found-Completion s k w now e x none found = fails _ (absent found)
found-Completion s k w now e x (some t) found =
    if_both C (not (is_leased t.state) || not (is_owner t.lease_owner w))
      (λ h. fails _ (unowned t found (ground arith)))
      λ owned.
        if_both C (not (names_task e.task_id k) || not (e.run_id == t.run_id))
          (λ h. fails _ (other_task t found (ground arith)))
          λ named.
            if_both C (not (x.event_id == e.event_id)) (λ h. fails _ (other_event (ground arith)))
              λ same.
                if_both C (contains s.event_keys (event_key e)) (λ used. fails _ (repeated used))
                  λ fresh.
                    completes t (completed_with s t k now e x) found
                      (leased_of t.state (ground arith)) (owner_of t.lease_owner w (ground arith))
                      (named_of e.task_id k (ground arith))
                      (ground (arith, eq_iff e.run_id t.run_id))
                      (ground (arith, eq_iff x.event_id e.event_id)) fresh
                      (completed_with-IsCompleted s t k now e x)
  where
    C : Reply (Unit {0}) → Type 0
    C = Completion s k w now e x

-- A task is completed with an event and an outbox row only for the worker that holds its lease, with
-- an event of that task and run, an outbox row of that event and a new idempotency key. Then the
-- task has succeeded without an owner, the event and the outbox row are stored and the key is used,
-- all in one step, and nothing else changes. Otherwise it raises the error of a test that fails,
-- and changes nothing.
pub complete_task_with_event_outbox-Completion :
    (s : Repository) (k w : String) (now : ℕ) (e : EventRecord) (x : OutboxRecord)
    → Completion s k w now e x (complete_task_with_event_outbox s k w now e x)
unfolding complete_task_with_event_outbox
complete_task_with_event_outbox-Completion s k w now e x =
    found-Completion s k w now e x (Dict.get s.tasks k) refl
