-- ===== src/Tasks/Store/State.antt =====
-- The state of the in-memory store and the values that its operations take and return:
-- vyuh/src/tasks/store/memory/store.rs, store/lane.rs and store/contract.rs.
use vyuh.Prelude.{ℕ, String, Bool, true, false, Option, List, HashMap}
use vyuh.Prelude.Int.{ℤ}
use vyuh.Tasks.Types.{TaskRecord, TaskStoreConf}
use vyuh.Tasks.Rate.{RateBucket}

pub data LaneOwnerPhase : Type 0 where
  active idling idle busying idle_failed busy_failed : LaneOwnerPhase

pub data LaneHookAction : Type 0 where
  idle_hook busy_hook : LaneHookAction

-- The result of a hook: nothing, or a diagnostic.
pub record LaneHookResult : Type 0 where
  pub generation : ℤ
  pub action : LaneHookAction
  pub failure : Option String

pub record LaneOwnerRequest : Type 0 where
  pub token : Option String
  pub quiescent : Bool
  pub allow_claim : Bool
  pub completed_work : Bool
  pub hook : Option LaneHookResult

pub record LaneOwnerPoll : Type 0 where
  pub token : Option String
  pub generation : ℤ
  pub phase : LaneOwnerPhase
  pub action : Option LaneHookAction
  pub takeover : Bool

pub record LaneClaim : Type 0 where
  pub lane : String
  pub limit : ℕ
  pub owner : Option LaneOwnerRequest

pub record LanePoll : Type 0 where
  pub lane : String
  pub tasks : List TaskRecord
  pub reclaimed : ℕ
  pub saturated : Bool
  pub next_wake_in : Option ℕ
  pub owner : Option LaneOwnerPoll

pub record TaskPoll : Type 0 where
  pub wake_lanes : List String
  pub lanes : List LanePoll

pub record CommitResult : Type 0 where
  pub wake_lanes : List String
  pub rejected : List ℕ
  pub tasks : List TaskRecord

pub record MemoryLaneLock : Type 0 where
  pub owner_id : Option String
  pub owner_token : Option String
  pub leased_until : Option ℕ
  pub phase : LaneOwnerPhase
  pub flushing : Bool
  pub empty_since : Option ℕ
  pub generation : ℤ
  pub hook_retry_at : Option ℕ
  pub last_hook_error : Option String

pub record TaskWait : Type 0 where
  pub children : List ℕ
  pub remaining_completions : ℤ

-- A node is known by the times of its registration and of its last heartbeat.
pub record MemoryState : Type 0 where
  pub nodes : HashMap ℕ (ℕ × ℕ)
  pub tasks : List TaskRecord
  pub conf : Option TaskStoreConf
  pub rates : HashMap String RateBucket
  pub schedules : HashMap String ℕ
  pub lane_locks : HashMap String MemoryLaneLock
  pub waits : HashMap ℕ TaskWait

pub record MemoryTaskStore : Type 0 where
  pub state : MemoryState
  commit_batch_size : ℕ
  lease_duration : ℕ

-- The mutable arguments that one turn threads through its steps, and the number of UUIDs that have
-- been generated.
pub record Turn : Type 0 where
  pub state : MemoryState
  pub deliveries : List (ℕ × String)
  pub undo : List TaskRecord
  pub uuids : ℕ

abbrev pub same_phase : LaneOwnerPhase → LaneOwnerPhase → Bool
same_phase active active = true
same_phase idling idling = true
same_phase idle idle = true
same_phase busying busying = true
same_phase idle_failed idle_failed = true
same_phase busy_failed busy_failed = true
same_phase _ _ = false

abbrev pub same_action : LaneHookAction → LaneHookAction → Bool
same_action idle_hook idle_hook = true
same_action busy_hook busy_hook = true
same_action _ _ = false
