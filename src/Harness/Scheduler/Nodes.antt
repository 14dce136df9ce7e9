-- ===== src/Harness/Scheduler/Nodes.antt =====
-- packages/harness/scheduler.py: the attempts at one node, `_run_node` and `_run_attempt`.
pub mod Verdict
use multi_agent_based_intell.Prelude.{
  ℕ, zero, suc, ◌-◌, String, Bool, Option, none, some, Result, ok, err, nat_beq, if◌then◌else◌,
}
use multi_agent_based_intell.Domain.Json.{Json}
use multi_agent_based_intell.Domain.Messaging.{TaskState, succeeded, failed, cancelled, timed_out}
use multi_agent_based_intell.Harness.Scheduler.Graph.{TaskNode}

pub record TaskOutcome : Type 0 where
  pub task_id : String
  pub state : TaskState
  pub attempts : ℕ
  pub result : Option Json
  pub error_code : Option String

-- How an operation ends: it returns a value or raises `RetryableTaskError`, `PermanentTaskError`,
-- `TimeoutError`, `asyncio.CancelledError` or another `Exception`. `KeyboardInterrupt` and
-- `SystemExit`, which end the event loop, are left out.
pub data OperationEnd : Type 0 where
  returned : Json → OperationEnd
  retryable permanent : (code : String) → OperationEnd
  operation_timed_out operation_cancelled unexpected : OperationEnd

-- What one attempt gives to `_run_node`: `interrupted` is an `asyncio.CancelledError`, and
-- `unending` an attempt that never ends.
pub data AttemptEnd : Type 0 where
  value : Json → AttemptEnd
  retryable_error permanent_error : (code : String) → AttemptEnd
  timeout_error cancelled_error other_error : AttemptEnd
  interrupted unending : AttemptEnd

-- What `asyncio.wait` leaves in `done`: the operation's end, if it is there, and whether the
-- cancellation is. An operation that is not there is cancelled and awaited without a bound:
-- `yields` tells whether it ends.
pub record Done : Type 0 where
  pub operation : Option OperationEnd
  pub cancellation : Bool
  pub yields : Bool

abbrev end_of : OperationEnd → AttemptEnd
end_of (returned result) = value result
end_of (retryable code) = retryable_error code
end_of (permanent code) = permanent_error code
end_of operation_timed_out = timeout_error
end_of operation_cancelled = interrupted
end_of unexpected = other_error

-- `_run_attempt` after the wait: the operation's end comes before a cancellation, and a
-- cancellation before the timeout.
abbrev waited : Option OperationEnd → (cancellation yields : Bool) → AttemptEnd
waited (some finished) cancellation yields = end_of finished
waited none cancellation yields =
    if yields then (if cancellation then cancelled_error else timeout_error) else unending

unfoldable pub run_attempt : Done → AttemptEnd
run_attempt done = waited done.operation done.cancellation done.yields

-- What the scheduler meets: for a task and an attempt, whether the token is already cancelled when
-- the attempt begins, and what the wait ends with.
pub record World : Type 0 where
  pub token_cancelled : String → ℕ → Bool
  pub wait : String → ℕ → Done

-- What `run` raises: `cancelled_operation` is the `asyncio.CancelledError` of an operation.
-- `never_ends` stands for a call that does not return, and `out_of_fuel` is the model's own.
pub data SchedulerError : Type 0 where
  loop_ended_unexpectedly deadlock cancelled_operation never_ends out_of_fuel : SchedulerError

abbrev pub outcome : TaskNode → TaskState → ℕ → Option Json → Option String → TaskOutcome
outcome node state attempts result error_code = record {
  task_id = node.task_id;
  state = state;
  attempts = attempts;
  result = result;
  error_code = error_code;
}

-- The handlers of one attempt, where `next` is the rest of the loop.
abbrev pub handle :
    TaskNode
    → ℕ
    → Result SchedulerError TaskOutcome
    → AttemptEnd
    → Result SchedulerError TaskOutcome
handle node attempt next (value result) = ok (outcome node succeeded attempt (some result) none)
handle node attempt next timeout_error =
    if nat_beq attempt node.max_attempts
    then ok (outcome node timed_out attempt none (some "task_timed_out"))
    else next
handle node attempt next (retryable_error code) =
    if nat_beq attempt node.max_attempts
    then ok (outcome node failed attempt none (some code))
    else next
handle node attempt next (permanent_error code) = ok (outcome node failed attempt none (some code))
handle node attempt next cancelled_error =
    ok (outcome node cancelled attempt none (some "run_cancelled"))
handle node attempt next other_error =
    ok (outcome node failed attempt none (some "unexpected_task_error"))
handle node attempt next interrupted = err cancelled_operation
handle node attempt next unending = err never_ends

module _ (world : World) (node : TaskNode) where
  -- `for attempt in range(attempt, attempt + left)`
  unfoldable pub run_attempts : ℕ → ℕ → Result SchedulerError TaskOutcome
  unfolding run_attempt
  run_attempts attempt zero = err loop_ended_unexpectedly
  run_attempts attempt (suc left) =
      let next = run_attempts (suc attempt) left in
      if world.token_cancelled node.task_id attempt
      then ok (outcome node cancelled (attempt - 1) none (some "run_cancelled"))
      else handle node attempt next (run_attempt (world.wait node.task_id attempt))

  unfoldable pub run_node : Result SchedulerError TaskOutcome
  unfolding run_attempts
  run_node = run_attempts 1 node.max_attempts
