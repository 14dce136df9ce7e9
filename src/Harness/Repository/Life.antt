-- ===== src/Harness/Repository/Life.antt =====
-- What holds of a task row for as long as the repository runs.
use multi_agent_based_intell.Prelude.{
  ℕ, ◌≤◌, ◌<◌, String, ◌≡◌, ◌≢◌, refl, subst, Bool, true, false, Option, some, List, [], ◌∷◌, arith,
  eq_iff, string_eq, All, All_mem,
}
use multi_agent_based_intell.Prelude.Dict
use multi_agent_based_intell.Prelude.Dict.{Dict, values, keys}
use multi_agent_based_intell.Domain.Messaging.{TaskState}
use multi_agent_based_intell.Harness.Repository.Records.{TaskRecord, Repository}
use multi_agent_based_intell.Harness.Repository.Tasks.{is_waiting, is_leased}
use multi_agent_based_intell.Harness.Repository.Requests.{
  Request, new_tasks, complete, beat, recover, complete_with_event, perform, perform_all,
}
use multi_agent_based_intell.Harness.Repository.Changes.{perform-Change}
use multi_agent_based_intell.Harness.Repository.Changes.Rows.{
  Change, kept, inserted, leased, completed, completed_with_event, beaten, released,
}
use multi_agent_based_intell.Harness.Repository.Invariant.{IsSound, perform-IsSound}

-- A row keeps to its attempts: it waits only while an attempt is left.
pub record IsBudgeted (t : TaskRecord) : Type 0 where
  pub within : t.attempt ≤ t.max_attempts
  pub left : is_waiting t.state ≡ true → t.attempt < t.max_attempts

-- Incoming tasks keep to their attempts; other requests are free.
abbrev pub Admits : Request → Type 0
Admits (new_tasks records) = All IsBudgeted records
Admits _ = Unit

module _ {tasks : Dict String TaskRecord} {i : String} where
  budget-Change :
      {r : Request} {o o' : Option TaskRecord}
      → Change tasks i r o o'
      → Admits r
      → ((t : TaskRecord) → o ≡ some t → IsBudgeted t)
      → (t : TaskRecord) → o' ≡ some t
      → IsBudgeted t
  budget-Change (kept _ _) a h t e = h t e
  budget-Change (inserted records u m own) a h t e =
      subst IsBudgeted (ground arith) (All_mem IsBudgeted records a m)
  budget-Change (leased w now seconds run u long fits) a h t e =
      let b = h u refl in record { within = ground arith; left = λ q. ground arith }
  budget-Change (completed k w now u here l o) a h t e =
      let b = h u refl in record { within = ground arith; left = λ q. ground arith }
  budget-Change (completed_with_event k w now ev ob u here l o) a h t e =
      let b = h u refl in record { within = ground arith; left = λ q. ground arith }
  budget-Change (beaten k w now seconds u here long o b l) a h t e =
      let b' = h u refl in record { within = ground arith; left = λ q. ground arith }
  budget-Change (released now u over) a h t e =
      let b = h u refl in record { within = ground arith; left = λ q. ground arith }

-- In no order of requests does a task get more attempts than `max_attempts`, provided that every
-- task is added within its attempts: leasing counts each attempt, and an expired lease at the
-- last attempt ends the task.
pub attempts_bounded :
    (s : Repository) (requests : List Request) (i : String) (t : TaskRecord)
    → IsSound s
    → All Admits requests
    → ((j : String) (u : TaskRecord) → Dict.get s.tasks j ≡ some u → IsBudgeted u)
    → Dict.get (perform_all s requests).tasks i ≡ some t
    → IsBudgeted t
unfolding perform_all
attempts_bounded s [] i t sound a h e = h i t e
attempts_bounded s (r ∷ rest) i t sound a h e =
    attempts_bounded (perform s r) rest i t (perform-IsSound s r sound) a.1
      (λ j. budget-Change (perform-Change s r j sound.keyed sound.closed) a.0 (h j)) e

-- A terminal state.
abbrev pub is_final : TaskState → Bool
is_final TaskState.succeeded = true
is_final TaskState.failed = true
is_final TaskState.cancelled = true
is_final TaskState.timed_out = true
is_final _ = false

final-Change :
    {tasks : Dict String TaskRecord} {i : String} {r : Request} {o o' : Option TaskRecord}
    → Change tasks i r o o'
    → (t : TaskRecord) → is_final t.state ≡ true
    → o ≡ some t
    → o' ≡ some t
final-Change (kept _ _) t f e = e
final-Change (inserted records u m own) t f e = absurd (cc)
final-Change (leased w now seconds run u long fits) t f e = absurd (ground arith)
final-Change (completed k w now u here l o) t f e = absurd (ground arith)
final-Change (completed_with_event k w now ev ob u here l o) t f e = absurd (ground arith)
final-Change (beaten k w now seconds u here long o b l) t f e = absurd (ground arith)
final-Change (released now u over) t f e = absurd (ground arith)

-- A task in a terminal state never changes again, whatever is requested.
pub final_forever :
    (s : Repository) (requests : List Request) (i : String) (t : TaskRecord)
    → IsSound s
    → is_final t.state ≡ true
    → Dict.get s.tasks i ≡ some t
    → Dict.get (perform_all s requests).tasks i ≡ some t
unfolding perform_all
final_forever s [] i t sound f e = e
final_forever s (r ∷ rest) i t sound f e =
    final_forever (perform s r) rest i t (perform-IsSound s r sound) f
      (final-Change (perform-Change s r i sound.keyed sound.closed) t f e)

-- A leased row of worker `w` whose lease ends at `until`.
pub record IsHeld (t : TaskRecord) (w : String) (until : ℕ) : Type 0 where
  pub state_leased : is_leased t.state ≡ true
  pub owner : t.lease_owner ≡ some w
  pub end : t.lease_until ≡ some until

-- Requests of other workers than `w`, and recoveries not after `until`.
abbrev pub IsForeign : String → ℕ → Request → Type 0
IsForeign w until (complete k v now) = v ≢ w
IsForeign w until (complete_with_event k v now e o) = v ≢ w
IsForeign w until (beat k v now seconds) = v ≢ w
IsForeign w until (recover now) = now ≤ until
IsForeign w until _ = Unit

held-Change :
    {tasks : Dict String TaskRecord} {i : String} {r : Request} {o o' : Option TaskRecord}
    → Change tasks i r o o'
    → (t : TaskRecord) (w : String) (until : ℕ) → IsHeld t w until
    → IsForeign w until r
    → o ≡ some t
    → o' ≡ some t
held-Change (kept _ _) t w until h f e = e
held-Change (inserted records u m own) t w until h f e = absurd (cc)
held-Change (leased v now seconds run u long fits) t w until h f e =
    absurd (ground (arith, h.state_leased))
held-Change (completed k v now u here l o) t w until h f e =
    absurd (f (ground (arith, h.owner, eq_iff w v)))
held-Change (completed_with_event k v now ev ob u here l o) t w until h f e =
    absurd (f (ground (arith, h.owner, eq_iff w v)))
held-Change (beaten k v now seconds u here long o b l) t w until h f e =
    absurd (f (ground (arith, h.owner, eq_iff w v)))
held-Change (released now u over) t w until h f e = absurd (ground (arith, h.end, f))

-- A lease is exclusive: until its worker acts or a recovery runs after the lease's end, no request
-- changes the row, so nobody else can lease, complete or extend the task.
pub lease_exclusive :
    (s : Repository) (requests : List Request) (i : String) (t : TaskRecord) (w : String)
    (until : ℕ)
    → IsSound s
    → IsHeld t w until
    → All (IsForeign w until) requests
    → Dict.get s.tasks i ≡ some t
    → Dict.get (perform_all s requests).tasks i ≡ some t
unfolding perform_all
lease_exclusive s [] i t w until sound h f e = e
lease_exclusive s (r ∷ rest) i t w until sound h f e =
    lease_exclusive (perform s r) rest i t w until (perform-IsSound s r sound) h f.1
      (held-Change (perform-Change s r i sound.keyed sound.closed) t w until h f.0 e)
