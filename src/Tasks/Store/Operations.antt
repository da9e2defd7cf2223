-- ===== src/Tasks/Store/Operations.antt =====
-- The operations of the store around its turns: vyuh/src/tasks/store/memory/store.rs, the
-- initialization in queries.rs and `admit_committed` of workflow.rs. Each action is what one
-- operation does while it holds the mutex; `uuids` counts the UUIDs made before.
pub mod Ready
use mathlib.Core.Option
use vyuh.Prelude.{
  ℕ, zero, suc, ◌+◌, ◌-◌, ltb, leb, ◌==◌, ◌=$◌, ◌&&◌, ◌||◌, not, if◌then◌else◌, String, Bool, true,
  false, Option, none, some, List, [], ◌∷◌, ◌++◌, any, length, is_some, is_none, is_none_or,
  HashMap, number_key, text_key, or_insert, contains_key, Result, Done, ok, err, and_then, ok_or,
  Exec, task_execution_error, invalid_options,
}
use vyuh.Prelude.Int.{ℤ, pos, leb_ℤ, eqb_ℤ, i32_max}
use vyuh.Tasks.Externals.{Externals}
use vyuh.Tasks.Types.{
  TaskRecord, TaskStatus, TaskKind, TaskRate, TaskCommit, TaskLaneConf, TaskStoreConf, same_status,
  same_kind,
}
use vyuh.Tasks.Rate.{RateBucket, full_bucket}
use vyuh.Tasks.Store.State.{
  MemoryState, MemoryLaneLock, LaneOwnerPhase, LaneClaim, TaskPoll, CommitResult,
}
use vyuh.Tasks.Store.Queries.{reject_orphaned_tasks}
use vyuh.Tasks.Store.Lifecycle.{admit}
use vyuh.Tasks.Store.Commit.{commit_task, prefers_local, direct}
use vyuh.Tasks.Store.Deliver.{finalize_workflow}
use vyuh.Tasks.Store.Workflow.{atomic_operation}

-- A lane's bucket is made full unless there is one.
abbrev add_rate : TaskLaneConf → ℕ → HashMap String RateBucket → HashMap String RateBucket
add_rate lane now rates = elim lane.global_rate [
  | none ↦ rates
  | some rate ↦ or_insert lane.lane (full_bucket rate now) rates
]

abbrev add_rates : List TaskLaneConf → ℕ → HashMap String RateBucket → HashMap String RateBucket
add_rates [] now rates = rates
add_rates (lane ∷ lanes) now rates = add_rates lanes now (add_rate lane now rates)

-- Every bucket is stamped with one reading of the clock.
unfoldable pub initialize_rates : TaskStoreConf → ℕ → MemoryState → MemoryState
initialize_rates conf now s = record s { rates = add_rates conf.lanes now s.rates }

abbrev new_lock : MemoryLaneLock
new_lock = record {
  owner_id = none;
  owner_token = none;
  leased_until = none;
  phase = LaneOwnerPhase.active;
  flushing = false;
  empty_since = none;
  generation = pos 0;
  hook_retry_at = none;
  last_hook_error = none;
}

abbrev add_lock : TaskLaneConf → HashMap String MemoryLaneLock → HashMap String MemoryLaneLock
add_lock lane locks = if is_some lane.lane_lock then or_insert lane.lane new_lock locks else locks

abbrev add_locks : List TaskLaneConf → HashMap String MemoryLaneLock → HashMap String MemoryLaneLock
add_locks [] locks = locks
add_locks (lane ∷ lanes) locks = add_locks lanes (add_lock lane locks)

unfoldable pub initialize_lane_locks : TaskStoreConf → MemoryState → MemoryState
initialize_lane_locks conf s = record s { lane_locks = add_locks conf.lanes s.lane_locks }

-- The work is done on a copy, which takes the place of the state at the end.
unfoldable pub initialize : Externals → ℕ → MemoryState → Result MemoryState
unfolding initialize_rates initialize_lane_locks
initialize x now s =
    and_then (ok_or s.conf (task_execution_error "task store configuration is missing")) λ conf.
      and_then (reject_orphaned_tasks s.tasks conf) λ _.
        ok
          (finalize_workflow x (initialize_lane_locks conf (initialize_rates conf now s)) [] []
            now).0

module _ (x : Externals) where
  abbrev unregistered : ℕ → List LaneClaim → MemoryState → Bool
  unregistered node claims s = not (contains_key node s.nodes) && any (λ c. ltb 0 c.limit) claims

  unfoldable pub claim_tasks : ℕ → ℕ → List LaneClaim → ℕ → ℕ → ℕ → Exec MemoryState TaskPoll
  claim_tasks uuids node claims batch lease now s =
      if unregistered node claims s
      then (err (task_execution_error "task node registration missing"), s)
      else (let (r, s') = atomic_operation x uuids (some node) claims [] batch lease now s in
          (and_then r λ (poll, result). ok poll, s'))

  unfoldable pub validate_coordination : List LaneClaim → Result Done
  validate_coordination claims =
      if any (λ claim. is_none_or claim.owner (λ owner. owner.allow_claim)) claims
      then err (invalid_options "lane coordination cannot claim work")
      else ok tt

  unfoldable pub coordinate_lanes : ℕ → ℕ → List LaneClaim → ℕ → ℕ → ℕ → Exec MemoryState TaskPoll
  unfolding claim_tasks validate_coordination
  coordinate_lanes uuids node claims batch lease now s = elim (validate_coordination claims) [
    | err e ↦ (err e, s)
    | ok _ ↦ claim_tasks uuids node claims batch lease now s
  ]

  unfoldable pub commit_tasks : ℕ → List TaskCommit → ℕ → ℕ → ℕ → Exec MemoryState CommitResult
  commit_tasks uuids commits batch lease now s =
      let (r, s') = atomic_operation x uuids none [] commits batch lease now s in
      (and_then r λ (poll, result). ok result, s')

-- A row that the runner has in its cache as it was suspended.
abbrev is_cached : List TaskRecord → TaskRecord → Bool
is_cached cached t =
    any
      (λ base.
        base.id == t.id
        && is_none base.node_id
        && eqb_ℤ base.attempts t.attempts
        && same_status base.status TaskStatus.suspended
        && base.lane =$ t.lane)
      cached

abbrev is_ok : Result Done → Bool
is_ok (ok d) = true
is_ok (err e) = false

abbrev below_max : ℤ → Bool
below_max n = not (leb_ℤ (pos i32_max) n)

module _ (s : MemoryState) (conf : TaskStoreConf) (before : ℕ) (node : ℕ) (cached : List TaskRecord)
    (now : ℕ) where
  abbrev is_admissible : ℕ → ℕ → TaskRecord → Bool
  is_admissible index limit t =
      (leb before index
        || is_cached cached t
          && is_none t.node_id
          && t.updated_at == now
          && not (contains_key t.id s.waits))
      && ltb 0 limit
      && is_none t.node_id
      && prefers_local t conf
      && below_max t.attempts
      && below_max t.step_attempts
      && direct t conf now

  abbrev has_outcome : List TaskCommit → List ℕ → TaskRecord → Bool
  has_outcome commits rejected t =
      same_kind t.kind TaskKind.flow
      && any (λ c. commit_task c == t.id) commits
      && not (any (λ id. id == t.id) rejected)

  -- The loop: the rows, and the snapshots that go with the result.
  abbrev pub admit_rows :
      List TaskCommit → List ℕ → ℕ → ℕ → List TaskRecord → List TaskRecord × List TaskRecord
  admit_rows commits rejected index limit [] = ([], [])
  admit_rows commits rejected index limit (t ∷ ts) =
      let (admitted, t') = admit node now t in
      let (rows_after, given_after) = admit_rows commits rejected (suc index) (limit - 1) ts in
      let (rows_else, given_else) = admit_rows commits rejected (suc index) limit ts in
      let updated : TaskRecord → List TaskRecord =
        λ u. if has_outcome commits rejected u then u ∷ [] else [] in
      if is_admissible index limit t && is_ok admitted
      then (t' ∷ rows_after, t' ∷ (updated t' ++ given_after))
      else (t ∷ rows_else, updated t ++ given_else)

unfoldable pub admit_committed :
    ℕ
    → List TaskCommit
    → ℕ
    → ℕ
    → List TaskRecord
    → ℕ
    → CommitResult
    → MemoryState
    → CommitResult × MemoryState
admit_committed before commits node limit cached now result s = elim s.conf [
  | none ↦ (result, s)
  | some conf ↦
      let (rows, given) =
        admit_rows s conf before node cached now commits result.rejected 0 limit s.tasks in
      (record result { tasks = result.tasks ++ given }, record s { tasks = rows })
]

-- A commit that takes on at once what it made ready.
unfoldable pub commit_admitted :
    Externals
    → ℕ
    → List TaskCommit
    → ℕ
    → ℕ
    → List TaskRecord
    → ℕ
    → ℕ
    → ℕ
    → Exec MemoryState CommitResult
unfolding admit_committed
commit_admitted x uuids commits node limit cached batch lease now s =
    let (r, s') = atomic_operation x uuids none [] commits batch lease now s in
    elim r [
      | err e ↦ (err e, s')
      | ok (poll, result) ↦
          let (result', s'') =
            admit_committed (length s.tasks) commits node limit cached now result s' in
          (ok result', s'')
    ]
