-- ===== src/Harness/Repository/Recovery.antt =====
-- Recovery of expired leases.
use multi_agent_based_intell.Prelude.{
  ℕ, ◌+◌, ◌≤◌, ◌<◌, String, ◌≡◌, refl, ◌⊎◌, inl, inr, true, false, Option, none, some, [], ◌∷◌,
  arith, string_eq, Option-cases, Bool-cases, if_both, &&-eq_true, leb, if◌then◌else◌, select,
  length,
}
use multi_agent_based_intell.Domain.Messaging.{TaskState}
use multi_agent_based_intell.Prelude.Dict
use multi_agent_based_intell.Prelude.Dict.{Dict, values, keys, get-put_self}
use multi_agent_based_intell.Harness.Repository.Records.{TaskRecord, Repository}
use multi_agent_based_intell.Harness.Repository.Tasks.{
  is_active, lease_over, is_expired, released_copy, recover_each, recover_expired_leases,
}
use multi_agent_based_intell.Harness.Repository.Leasing.{IsKeyed}
use multi_agent_based_intell.Harness.Repository.Changes.Recovering.{get-recover}

recover_each-count :
    (now : ℕ) (l d : Dict String TaskRecord) (n : ℕ)
    → (recover_each now l (n, d)).0 ≡ n + length (select (is_expired now) (values l))
unfolding recover_each
recover_each-count now [] d n = omega arith
recover_each-count now ((k, t) ∷ rest) d n = ground (
  arith,
  recover_each-count now rest (Dict.put d k (released_copy t now)) (n + 1),
  recover_each-count now rest d n,
)

-- What recovery makes of a row whose lease is over: it goes to failure at its last attempt and else
-- to a retry, and is nobody's; the attempt that was lost stays counted.
pub data Recovered (now : ℕ) (t : TaskRecord) : TaskRecord → Type 0 where
  failed_for_good :
      t.max_attempts ≤ t.attempt
      → Recovered now t (record t {
        state = TaskState.failed;
        lease_owner = none;
        lease_until = none;
        last_error_code = some "lease_expired";
        updated_at = now;
      })
  retried :
      t.attempt < t.max_attempts
      → Recovered now t (record t {
        state = TaskState.waiting_retry;
        lease_owner = none;
        lease_until = none;
        last_error_code = some "lease_expired";
        updated_at = now;
      })

-- The states in which a worker holds a task.
abbrev pub IsHeld : TaskState → Type 0
IsHeld state =
    (state ≡ TaskState.leased)
    ⊎ (state ≡ TaskState.running)
    ⊎ (state ≡ TaskState.waiting_tool)
    ⊎ (state ≡ TaskState.validating)

-- A lease that has ended, of a task that a worker holds.
pub record IsLapsed (now : ℕ) (t : TaskRecord) : Type 0 where
  pub held : IsHeld t.state
  pub until : ℕ
  pub leased_until : t.lease_until ≡ some until
  pub past : until < now

IsHeld-of : (state : TaskState) → is_active state ≡ true → IsHeld state
IsHeld-of TaskState.leased h = inl refl
IsHeld-of TaskState.running h = inr (inl refl)
IsHeld-of TaskState.waiting_tool h = inr (inr (inl refl))
IsHeld-of TaskState.validating h = inr (inr (inr refl))
IsHeld-of TaskState.pending h = absurd (cc)
IsHeld-of TaskState.waiting_user h = absurd (cc)
IsHeld-of TaskState.waiting_retry h = absurd (cc)
IsHeld-of TaskState.succeeded h = absurd (cc)
IsHeld-of TaskState.failed h = absurd (cc)
IsHeld-of TaskState.cancelled h = absurd (cc)
IsHeld-of TaskState.timed_out h = absurd (cc)

over_of :
    (o : Option ℕ) (now : ℕ)
    → lease_over o now ≡ true
    → (until : ℕ) × (o ≡ some until) × (until < now)
over_of none now h = absurd (cc)
over_of (some until) now h = (until, refl, ground arith)

active_of : (state : TaskState) → IsHeld state → is_active state ≡ true
active_of state (inl e) = rw e refl
active_of state (inr (inl e)) = rw e refl
active_of state (inr (inr (inl e))) = rw e refl
active_of state (inr (inr (inr e))) = rw e refl

expired_of : (now : ℕ) (t : TaskRecord) → IsLapsed now t → is_expired now t ≡ true
expired_of now t v = rw (active_of t.state v.held, v.leased_until) (ground (arith, v.past))

IsLapsed-of : (now : ℕ) (t : TaskRecord) → is_expired now t ≡ true → IsLapsed now t
IsLapsed-of now t h =
    let (held, over) = &&-eq_true (is_active t.state) (lease_over t.lease_until now) h in
    let (until, at, past) = over_of t.lease_until now over in
    record { held = IsHeld-of t.state held; until = until; leased_until = at; past = past }

released-Recovered : (now : ℕ) (t : TaskRecord) → Recovered now t (released_copy t now)
released-Recovered now t = elim (Bool-cases (leb t.max_attempts t.attempt)) [
  | inl over ↦ rw over (failed_for_good (ground arith))
  | inr room ↦ rw room (retried (ground arith))
]

-- What stands in place of a row after a recovery.
pub data Treated (now : ℕ) (t : TaskRecord) : TaskRecord → Type 0 where
  lapsed : (t' : TaskRecord) → IsLapsed now t → Recovered now t t' → Treated now t t'
  untouched : ¬ IsLapsed now t → Treated now t t

row-Treated :
    (now : ℕ) (t : TaskRecord) → Treated now t (if is_expired now t then released_copy t now else t)
row-Treated now t =
    if_both (Treated now t) (is_expired now t)
      (λ over. lapsed _ (IsLapsed-of now t over) (released-Recovered now t))
      (λ going. untouched λ v. absurd (ground (arith, expired_of now t v)))

-- Recovery counts the rows whose lease is over. In exactly those, which a worker holds under a lease
-- that ended before `now`, it puts the task to failure at its last attempt and else to a retry,
-- takes the lease away, notes the error `lease_expired`, and changes nothing else. Every other row
-- stays as it was.
pub recover_exact :
    (s : Repository) (now : ℕ) (i : String) (t : TaskRecord)
    → IsKeyed s.tasks
    → Dict.get s.tasks i ≡ some t
    → ((recover_expired_leases s now).0 ≡ length (select (is_expired now) (values s.tasks)))
      × ((t' : TaskRecord) × (Dict.get (recover_expired_leases s now).1.tasks i ≡ some t')
          × Treated now t t')
recover_exact s now i t keyed found = (
  unfold recover_expired_leases in omega (arith, recover_each-count now s.tasks s.tasks 0),
  (
    if is_expired now t then released_copy t now else t,
    ground (arith, get-recover s now i keyed, found),
    row-Treated now t,
  ),
)

-- After a recovery no lease is over: a second recovery at the same instant finds nothing.
pub recover_twice :
    (s : Repository) (now : ℕ) (i : String) (t : TaskRecord)
    → IsKeyed s.tasks
    → Dict.get (recover_expired_leases s now).1.tasks i ≡ some t
    → is_expired now t ≡ false
recover_twice s now i t keyed found = elim (Option-cases (Dict.get s.tasks i)) [
  | inl absent ↦ absurd (ground (arith, get-recover s now i keyed))
  | inr (u, e) ↦ ground (arith, get-recover s now i keyed)
]
