-- ===== src/Harness/Repository/Records.antt =====
-- packages/harness/persistence/repository.py: the rows, the tables of `MemoryHarnessRepository`
-- and what its methods raise. An instant is a number of microseconds since the year 1, UTC.
use multi_agent_based_intell.Prelude.{ℕ, ◌+◌, ◌*◌, String, Bool, Option, List, [], Result}
use multi_agent_based_intell.Prelude.Dict.{Dict}
use multi_agent_based_intell.Prelude.Int.{ℤ}
use multi_agent_based_intell.Domain.Json.{Fields}
use multi_agent_based_intell.Domain.Messaging.{RunState, TaskState, EventType}

pub record RunRecord : Type 0 where
  pub run_id : String
  pub state : RunState
  pub request_schema_version : String
  pub revision : ℕ
  pub trace_id : String
  pub cancellation_requested : Bool
  pub created_at : ℕ
  pub updated_at : ℕ

pub record TaskRecord : Type 0 where
  pub task_id : String
  pub run_id : String
  pub task_type : String
  pub recipient_agent : String
  pub state : TaskState
  pub dependency_ids : List String
  pub priority : ℤ
  pub attempt : ℕ
  pub max_attempts : ℕ
  pub available_at : ℕ
  pub deadline : ℕ
  pub lease_owner : Option String
  pub lease_until : Option ℕ
  pub heartbeat_at : Option ℕ
  pub idempotency_key : String
  pub last_error_code : Option String
  pub created_at : ℕ
  pub updated_at : ℕ

pub record EventRecord : Type 0 where
  pub event_id : String
  pub run_id : String
  pub task_id : Option String
  pub event_type : EventType
  pub idempotency_key : String
  pub payload : Fields
  pub created_at : ℕ

pub record CheckpointRecord : Type 0 where
  pub checkpoint_id : String
  pub run_id : String
  pub task_id : String
  pub step : ℕ
  pub context : Fields
  pub created_at : ℕ

pub record OutboxRecord : Type 0 where
  pub outbox_id : String
  pub event_id : String
  pub topic : String
  pub payload : Fields
  pub available_at : ℕ
  pub lease_owner : Option String
  pub lease_until : Option ℕ
  pub attempt : ℕ
  pub published_at : Option ℕ
  pub created_at : ℕ

pub record Repository : Type 0 where
  pub runs : Dict String RunRecord
  pub tasks : Dict String TaskRecord
  pub events : Dict String EventRecord
  pub checkpoints : Dict (String × ℕ) CheckpointRecord
  pub outbox : Dict String OutboxRecord
  -- The set `_event_keys`.
  pub event_keys : List (String × String)

abbrev pub empty_repository : Repository
empty_repository = record {
  runs = [];
  tasks = [];
  events = [];
  checkpoints = [];
  outbox = [];
  event_keys = [];
}

-- One constructor for each `raise`, and `missing_key` for a failed subscript.
pub data RepositoryError : Type 0 where
  run_exists run_missing task_ids_not_unique task_exists dependencies_missing : RepositoryError
  lease_seconds_not_positive lease_not_owned task_missing event_task_mismatch : RepositoryError
  outbox_event_mismatch event_key_exists limits_not_positive missing_key : RepositoryError

-- `now + timedelta(seconds=lease_seconds)`
abbrev pub lease_end : ℕ → ℕ → ℕ
lease_end now lease_seconds = now + lease_seconds * 1000000

-- A method's result, and the tables behind it.
abbrev pub Reply : Type 0 → Type 0
Reply A = Result RepositoryError A × Repository
