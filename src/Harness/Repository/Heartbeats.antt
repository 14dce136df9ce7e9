-- ===== src/Harness/Repository/Heartbeats.antt =====
-- Heartbeats: who may extend a lease, and what that changes.
use multi_agent_based_intell.Prelude.{
  ℕ, ◌+◌, ◌*◌, ◌≤◌, ◌<◌, String, ◌≡◌, refl, ◌⊎◌, inl, inr, Bool, true, false, ◌&&◌, Option, none,
  some, ok, err, arith, string_eq, eq_iff, ltb, if_both, &&-eq_true, sym, ◌∙◌,
}
use multi_agent_based_intell.Domain.Messaging.{TaskState}
use multi_agent_based_intell.Prelude.Dict
use multi_agent_based_intell.Prelude.Dict.{get-put_self}
use multi_agent_based_intell.Harness.Repository.Records.{
  TaskRecord, Repository, lease_seconds_not_positive, Reply,
}
use multi_agent_based_intell.Harness.Repository.Tables.{SameBut, put-SameBut}
use multi_agent_based_intell.Harness.Repository.Tasks.{
  is_owner, can_beat, lease_alive, beaten_copy, beat_found, heartbeat_task,
}

-- The worker works on the task under a lease that has not ended.
pub record IsAlive (t : TaskRecord) (w : String) (now : ℕ) : Type 0 where
  pub own : t.lease_owner ≡ some w
  pub at_work :
      (t.state ≡ TaskState.leased)
      ⊎ (t.state ≡ TaskState.running)
      ⊎ (t.state ≡ TaskState.waiting_tool)
  pub until : ℕ
  pub leased_until : t.lease_until ≡ some until
  pub in_time : now < until

-- What `heartbeat_task` does.
pub data Heartbeat (s : Repository) (k w : String) (now seconds : ℕ) : Reply Bool → Type 0 where
  too_short : seconds ≡ 0 → Heartbeat s k w now seconds (err lease_seconds_not_positive, s)
  lost :
      1 ≤ seconds
      → ((t : TaskRecord) → Dict.get s.tasks k ≡ some t → ¬ IsAlive t w now)
      → Heartbeat s k w now seconds (ok false, s)
  extends :
      (t : TaskRecord) (s' : Repository)
      → 1 ≤ seconds
      → Dict.get s.tasks k ≡ some t
      → IsAlive t w now
      → Dict.get s'.tasks k
        ≡ some (record t {
          heartbeat_at = some now;
          lease_until = some (now + seconds * 1000000);
          updated_at = now;
        })
      → SameBut k s.tasks s'.tasks
      → record s' { tasks = s.tasks } ≡ s
      → Heartbeat s k w now seconds (ok true, s')

work_of :
    (state : TaskState)
    → can_beat state ≡ true
    → (state ≡ TaskState.leased) ⊎ (state ≡ TaskState.running) ⊎ (state ≡ TaskState.waiting_tool)
work_of TaskState.leased h = inl refl
work_of TaskState.running h = inr (inl refl)
work_of TaskState.waiting_tool h = inr (inr refl)
work_of TaskState.pending h = absurd (cc)
work_of TaskState.waiting_user h = absurd (cc)
work_of TaskState.validating h = absurd (cc)
work_of TaskState.waiting_retry h = absurd (cc)
work_of TaskState.succeeded h = absurd (cc)
work_of TaskState.failed h = absurd (cc)
work_of TaskState.cancelled h = absurd (cc)
work_of TaskState.timed_out h = absurd (cc)

beats_of :
    (state : TaskState)
    → (state ≡ TaskState.leased) ⊎ (state ≡ TaskState.running) ⊎ (state ≡ TaskState.waiting_tool)
    → can_beat state ≡ true
beats_of state (inl e) = rw e refl
beats_of state (inr (inl e)) = rw e refl
beats_of state (inr (inr e)) = rw e refl

owner_is : (o : Option String) (w : String) → is_owner o w ≡ true → o ≡ some w
owner_is none w h = absurd (cc)
owner_is (some v) w h = ground (arith, eq_iff v w)

alive_until :
    (o : Option ℕ) (now : ℕ)
    → lease_alive o now ≡ true
    → (until : ℕ) × (o ≡ some until) × (now < until)
alive_until none now h = absurd (cc)
alive_until (some until) now h = (until, refl, ground arith)

abbrev passes : TaskRecord → String → ℕ → Bool
passes t w now = is_owner t.lease_owner w && (can_beat t.state && lease_alive t.lease_until now)

passes-IsAlive : (t : TaskRecord) (w : String) (now : ℕ) → passes t w now ≡ true → IsAlive t w now
passes-IsAlive t w now h =
    let (owned, rest) = &&-eq_true (is_owner t.lease_owner w) _ h in
    let (busy, going) = &&-eq_true (can_beat t.state) (lease_alive t.lease_until now) rest in
    let (until, at, before) = alive_until t.lease_until now going in
    record {
      own = owner_is t.lease_owner w owned;
      at_work = work_of t.state busy;
      until = until;
      leased_until = at;
      in_time = before;
    }

IsAlive-passes : (t : TaskRecord) (w : String) (now : ℕ) → IsAlive t w now → passes t w now ≡ true
IsAlive-passes t w now v =
    rw (v.own, beats_of t.state v.at_work, v.leased_until, (eq_iff w w).1 refl)
      (ground (arith, v.in_time))

found-Heartbeat :
    (s : Repository) (k w : String) (now seconds : ℕ) (o : Option TaskRecord)
    → 1 ≤ seconds
    → Dict.get s.tasks k ≡ o
    → Heartbeat s k w now seconds (beat_found s k w now seconds o)
found-Heartbeat s k w now seconds none long found = lost long λ t at v. absurd (cc (found, at))
found-Heartbeat s k w now seconds (some t) long found =
    if_both (Heartbeat s k w now seconds) (passes t w now)
      (λ h.
        extends t _ long found (passes-IsAlive t w now h)
          (get-put_self s.tasks k (beaten_copy t now seconds)) (put-SameBut s.tasks k _) refl)
      λ h. lost long λ u at v.
        let same : some t ≡ some u = sym found ∙ at in
        absurd (ground (arith, h, same, IsAlive-passes u w now v))

-- `heartbeat_task` refuses an extension of no length. It returns `True` exactly for the owner of a
-- lease that has not ended, on a task that is leased, running or waiting for a tool. Then the lease
-- lasts for the given seconds from `now`, and nothing but that row's lease, heartbeat and time of
-- change differs. Otherwise nothing changes.
pub heartbeat_task-Heartbeat :
    (s : Repository) (k w : String) (now seconds : ℕ)
    → Heartbeat s k w now seconds (heartbeat_task s k w now seconds)
unfolding heartbeat_task
heartbeat_task-Heartbeat s k w now seconds =
    if_both (Heartbeat s k w now seconds) (ltb seconds 1) (λ short. too_short (ground arith))
      λ long. found-Heartbeat s k w now seconds (Dict.get s.tasks k) (ground arith) refl
