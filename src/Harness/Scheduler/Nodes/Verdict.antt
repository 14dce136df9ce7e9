-- ===== src/Harness/Scheduler/Nodes/Verdict.antt =====
-- What `_run_node` makes of the attempts at a node.
use multi_agent_based_intell.Prelude.{
  ℕ, zero, suc, ◌+◌, ◌-◌, ◌≤◌, ◌<◌, ◌≡◌, refl, inl, inr, Bool, true, false, none, some, Result, ok,
  err, arith, nat_beq, if◌then◌else◌, Bool-cases, sym, subst,
}
use multi_agent_based_intell.Domain.Messaging.{succeeded, failed, cancelled, timed_out}
use multi_agent_based_intell.Harness.Scheduler.Graph.{TaskNode}
use multi_agent_based_intell.Harness.Scheduler.Nodes.{
  TaskOutcome, AttemptEnd, value, retryable_error, permanent_error, timeout_error, cancelled_error,
  other_error, interrupted, unending, cancelled_operation, never_ends, World, SchedulerError,
  outcome, handle, run_attempt, run_attempts, run_node,
}

-- An end after which another attempt is made, while one is left.
abbrev pub is_transient : AttemptEnd → Bool
is_transient (retryable_error code) = true
is_transient timeout_error = true
is_transient _ = false

-- What the node comes to when attempt `n` is its last.
abbrev pub verdict : TaskNode → ℕ → AttemptEnd → Result SchedulerError TaskOutcome
verdict node n (value result) = ok (outcome node succeeded n (some result) none)
verdict node n (retryable_error code) = ok (outcome node failed n none (some code))
verdict node n (permanent_error code) = ok (outcome node failed n none (some code))
verdict node n timeout_error = ok (outcome node timed_out n none (some "task_timed_out"))
verdict node n cancelled_error = ok (outcome node cancelled n none (some "run_cancelled"))
verdict node n other_error = ok (outcome node failed n none (some "unexpected_task_error"))
verdict node n interrupted = err cancelled_operation
verdict node n unending = err never_ends

module _ (world : World) (node : TaskNode) where
  abbrev pub attempt_end : ℕ → AttemptEnd
  attempt_end n = run_attempt (world.wait node.task_id n)

  -- The course of the attempts from number `n` on, and the outcome it leads to.
  pub data Course : ℕ → Result SchedulerError TaskOutcome → Type 0 where
    stopped :
        (n : ℕ)
        → n ≤ node.max_attempts
        → world.token_cancelled node.task_id n ≡ true
        → Course n (ok (outcome node cancelled (n - 1) none (some "run_cancelled")))
    exhausted :
        (n : ℕ)
        → n ≡ node.max_attempts
        → world.token_cancelled node.task_id n ≡ false
        → Course n (verdict node n (attempt_end n))
    decided :
        (n : ℕ)
        → n ≤ node.max_attempts
        → world.token_cancelled node.task_id n ≡ false
        → is_transient (attempt_end n) ≡ false
        → Course n (verdict node n (attempt_end n))
    retried :
        (n : ℕ) (q : Result SchedulerError TaskOutcome)
        → n < node.max_attempts
        → world.token_cancelled node.task_id n ≡ false
        → is_transient (attempt_end n) ≡ true
        → Course (suc n) q
        → Course n q

  -- What breaks off the attempts: an operation that ends in a cancellation of its own, or one that
  -- does not end when it is cancelled.
  pub data Breaks : SchedulerError → Type 0 where
    interrupts : (n : ℕ) → attempt_end n ≡ interrupted → Breaks cancelled_operation
    hangs : (n : ℕ) → attempt_end n ≡ unending → Breaks never_ends

  -- An outcome is the node's, within its attempts, and an error has its cause.
  pub data IsEnd : Result SchedulerError TaskOutcome → Type 0 where
    ends :
        (o : TaskOutcome) → o.attempts ≤ node.max_attempts → o.task_id ≡ node.task_id → IsEnd (ok o)
    breaks : (e : SchedulerError) → Breaks e → IsEnd (err e)

  handle-transient :
      (n : ℕ) (next : Result SchedulerError TaskOutcome) (a : AttemptEnd)
      → is_transient a ≡ true
      → handle node n next a ≡ (if nat_beq n node.max_attempts then verdict node n a else next)
  handle-transient n next a h = ground arith

  handle-decided :
      (n : ℕ) (next : Result SchedulerError TaskOutcome) (a : AttemptEnd)
      → is_transient a ≡ false
      → handle node n next a ≡ verdict node n a
  handle-decided n next a h = ground arith

  -- One attempt, given the course of a transient one.
  step-Course :
      (n left : ℕ)
      → n ≤ node.max_attempts
      → (world.token_cancelled node.task_id n ≡ false
          → is_transient (attempt_end n) ≡ true
          → Course n (handle node n (run_attempts world node (suc n) left) (attempt_end n)))
      → Course n (run_attempts world node n (suc left))
  unfolding run_attempts
  step-Course n left le transient = elim (Bool-cases (world.token_cancelled node.task_id n)) [
    | inl stop ↦ rw stop (stopped n le stop)
    | inr going ↦ rw going (elim (Bool-cases (is_transient (attempt_end n))) [
      | inr firm ↦ rw (handle-decided n _ _ firm) (decided n le going firm)
      | inl soft ↦ transient going soft
    ])
  ]

  run_attempts-Course :
      (n left : ℕ) → n + left ≡ node.max_attempts → Course n (run_attempts world node n (suc left))
  run_attempts-Course n zero sum = step-Course n zero (omega arith) λ going soft.
      let last : nat_beq n node.max_attempts ≡ true = ground arith in
      rw (handle-transient n _ _ soft, last) (exhausted n (omega arith) going)
  run_attempts-Course n (suc left) sum = step-Course n (suc left) (omega arith) λ going soft.
      let more : nat_beq n node.max_attempts ≡ false = ground arith in
      rw (handle-transient n _ _ soft, more)
        (retried n _ (omega arith) going soft (run_attempts-Course (suc n) left (omega arith)))

  verdict-IsEnd :
      (n : ℕ) (a : AttemptEnd)
      → attempt_end n ≡ a
      → n ≤ node.max_attempts
      → IsEnd (verdict node n a)
  verdict-IsEnd n (value result) e le = ends _ le refl
  verdict-IsEnd n (retryable_error code) e le = ends _ le refl
  verdict-IsEnd n (permanent_error code) e le = ends _ le refl
  verdict-IsEnd n timeout_error e le = ends _ le refl
  verdict-IsEnd n cancelled_error e le = ends _ le refl
  verdict-IsEnd n other_error e le = ends _ le refl
  verdict-IsEnd n interrupted e le = breaks _ (interrupts n e)
  verdict-IsEnd n unending e le = breaks _ (hangs n e)

  Course-IsEnd : (n : ℕ) (q : Result SchedulerError TaskOutcome) → Course n q → IsEnd q
  Course-IsEnd n _ (stopped _ le stop) = ends _ (omega arith) refl
  Course-IsEnd n _ (exhausted _ last going) = verdict-IsEnd n (attempt_end n) refl (omega arith)
  Course-IsEnd n _ (decided _ le going firm) = verdict-IsEnd n (attempt_end n) refl le
  Course-IsEnd n q (retried _ _ lt going soft course) = Course-IsEnd (suc n) q course

  -- For a node that allows an attempt, `_run_node` makes attempts for as long as they end in a
  -- timeout or a retryable error and one is left, and returns what the last of them or a
  -- cancellation before it calls for: an outcome of the node, with `max_attempts` attempts at most.
  -- It raises only the `asyncio.CancelledError` in which an operation has ended, and it does not
  -- return only where an operation does not end when it is cancelled.
  pub run_node-Course :
      1 ≤ node.max_attempts → Course 1 (run_node world node) × IsEnd (run_node world node)
  unfolding run_node
  run_node-Course some_attempt =
      let left = node.max_attempts - 1 in
      let count : node.max_attempts ≡ suc left = omega arith in
      let course = run_attempts-Course 1 left (omega arith) in
      let all_attempts = subst (λ m. Course 1 (run_attempts world node 1 m)) (sym count) course in
      (all_attempts, Course-IsEnd 1 _ all_attempts)
