-- ===== src/Tasks/Types.antt =====
-- The persisted values of vyuh/src/tasks: models.rs, failure.rs, outcome.rs, submission.rs,
-- config.rs, lane_lock.rs and store/contract.rs. A point in time is its number of nanoseconds
-- after the earliest one that chrono represents, a duration its number of nanoseconds, and a UUID
-- its 128-bit number.
use mathlib.Core.Option
use vyuh.Prelude.{ℕ, ◌*◌, ◌+◌, String, Bool, true, false, Option, List, ◌=$◌, ◌&&◌, find, is_none}
use vyuh.Prelude.Int.{ℤ}

pub data TaskStatus : Type 0 where
  pending running suspended succeeded failed : TaskStatus

pub data TaskKind : Type 0 where
  work flow : TaskKind

pub record TaskRecord : Type 0 where
  pub id : ℕ
  pub parent_id : Option ℕ
  pub root_id : Option ℕ
  pub kind : TaskKind
  pub name : String
  pub input : String
  pub state : Option String
  pub resume_input : Option String
  pub status : TaskStatus
  pub cancelled : Bool
  pub attempts : ℤ
  pub step_attempts : ℤ
  pub lane : String
  pub last_result : Option String
  pub idempotency_key : Option String
  pub idempotency_fingerprint : Option String
  pub idempotency_expires_at : Option ℕ
  pub node_id : Option ℕ
  pub ready_at : Option ℕ
  pub created_at : ℕ
  pub updated_at : ℕ
  pub completed_at : Option ℕ

pub record TaskWrite : Type 0 where
  pub task : TaskRecord
  pub ignore_conflicts : Bool
  pub initial_delay : Option ℕ

pub data TaskReceipt : Type 0 where
  queued existing ignored : ℕ → TaskReceipt

pub data TaskOutcome : Type 0 where
  all : (state : String) (children : List TaskWrite) → TaskOutcome
  complete : TaskOutcome
  complete_with : (output : String) → TaskOutcome
  spawn : (state : String) (child : TaskWrite) → TaskOutcome
  suspend : (state : String) → TaskOutcome
  sleep : (state : String) (delay : ℕ) → TaskOutcome
  retry : (error : String) → TaskOutcome
  fail : (error : String) → TaskOutcome

pub record TaskRate : Type 0 where
  pub permits : ℕ
  pub period : ℕ
  pub burst : ℕ

pub record TaskRetry : Type 0 where
  pub max_attempts : ℕ
  pub initial_delay : ℕ
  pub max_delay : ℕ

pub data IdempotencyRetention : Type 0 where
  active_only : IdempotencyRetention
  retain_for : (duration : ℕ) → IdempotencyRetention

-- A hook is known to the stores by its identity alone.
pub record TaskLaneLock : Type 0 where
  pub batch_size : ℕ
  pub deadline : Option ℕ
  pub idle_after : ℕ
  pub idle_hook : Option String
  pub busy_hook : Option String

pub record TaskLaneConf : Type 0 where
  pub lane : String
  pub concurrency : ℕ
  pub claim_batch_size : ℕ
  pub lane_lock : Option TaskLaneLock
  pub rate : Option TaskRate
  pub global_rate : Option TaskRate
  pub retry : TaskRetry
  pub idempotency_retention : IdempotencyRetention
  pub sticky : Bool
  pub flow_cache_bytes : ℕ

pub record TaskIdempotencyConf : Type 0 where
  pub handler : String
  pub lane : String
  pub revision : String
  pub retention : IdempotencyRetention

pub record TaskStoreConf : Type 0 where
  pub max_all_children : ℕ
  pub handlers : List (String × TaskKind)
  pub lanes : List TaskLaneConf
  pub idempotency : List TaskIdempotencyConf
  pub poll_interval : ℕ

pub data TaskCommit : Type 0 where
  outcome :
      (node_id : ℕ) (attempts : ℤ) (task_id : ℕ) (lane : String) (outcome : TaskOutcome)
      (owner_token : Option String)
      → TaskCommit
  cancel : (task_id : ℕ) → TaskCommit

abbrev pub nanos : ℕ
nanos = 1000000000

-- `Duration::MAX`
abbrev pub duration_max : ℕ
duration_max = 18446744073709551615 * nanos + 999999999

abbrev pub max_task_delay : ℕ
max_task_delay = 10 * 365 * 24 * 60 * 60 * nanos

-- The equality tests of the enumerations.
abbrev pub same_status : TaskStatus → TaskStatus → Bool
same_status pending pending = true
same_status running running = true
same_status suspended suspended = true
same_status succeeded succeeded = true
same_status failed failed = true
same_status _ _ = false

abbrev pub same_kind : TaskKind → TaskKind → Bool
same_kind work work = true
same_kind flow flow = true
same_kind _ _ = false

-- `TaskLaneConf::is_sticky`
abbrev pub is_sticky : TaskLaneConf → Bool
is_sticky c = c.sticky && is_none c.lane_lock

-- `TaskStoreConf::idempotency_for`
abbrev pub idempotency_for : TaskStoreConf → String → Option IdempotencyRetention
idempotency_for conf handler =
    Option.map (λ p. p.retention) (find (λ p. p.handler =$ handler) conf.idempotency)

abbrev pub find_lane : TaskStoreConf → String → Option TaskLaneConf
find_lane conf name = find (λ c. c.lane =$ name) conf.lanes
