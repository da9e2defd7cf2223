-- ===== src/Tasks/Store/Stage.antt =====
-- The staging of accepted outcomes, before any stored row changes:
-- vyuh/src/tasks/store/memory/workflow.rs, and the fence of locked lanes in store.rs.
use mathlib.Core.Option
use Prim.Native.String.{◌++◌ as text_append}
use vyuh.Prelude.{
  ℕ, ◌-◌, ◌%◌, ◌^◌, ltb, ◌==◌, ◌=$◌, ◌&&◌, ◌||◌, not, if◌then◌else◌, String, Bool, true, false,
  Option, none, some, List, [], ◌∷◌, ◌++◌, is_some, is_some_and, unwrap_or, eq_id, eq_text, length,
  any, filter, find_from, lookup, map, text_key, Result, Done, ok, err, and_then, ok_or, Exec, ◌>>◌,
  invalid_config, invalid_options, unknown_lane, idempotency_conflict, already_exists,
}
use vyuh.Prelude.Int.{ℤ, pos, negsuc}
use vyuh.Tasks.Externals.{Externals}
use vyuh.Tasks.Types.{
  TaskStatus, TaskRecord, TaskWrite, TaskReceipt, TaskOutcome, TaskCommit, outcome, cancel,
  TaskStoreConf, TaskRetry, same_status, find_lane,
}
use vyuh.Tasks.Store.State.{MemoryState, TaskWait}
use vyuh.Tasks.Store.Queries.{finalize_idempotency}
use vyuh.Tasks.Store.Lifecycle.{apply_outcome}
use vyuh.Tasks.Store.Commit.{
  accepts, commit_task, commit_lane, commit_outcome, is_cancel, cancellation, capability_error,
  validate_group,
}
use vyuh.Tasks.Store.Submit.{validate_write_lanes, stage_write}
use vyuh.Tasks.Store.Claim.{Delivery, Row, on_record, queue_delivery}
use vyuh.Tasks.Store.LaneOwner.{memory_owner_live}

-- Whether a lane of the configuration has a lock.
abbrev is_locked : MemoryState → String → Bool
is_locked s lane =
    is_some_and (Option.bind s.conf λ conf. find_lane conf lane) λ c. is_some c.lane_lock

unfoldable pub memory_commit_allowed : Externals → MemoryState → TaskCommit → ℕ → Result Bool
memory_commit_allowed x s (cancel id) now = ok true
memory_commit_allowed x s (outcome owner attempts id lane o token) now =
    if not (is_locked s lane) then ok true else elim (lookup lane s.lane_locks) [
      | none ↦ err (
          invalid_config (text_append "task lane lock '" (text_append lane "' is not initialized")))
      | some lock ↦ ok (
          eq_text lock.owner_id (some (x.uuid_text owner))
          && eq_text lock.owner_token token
          && memory_owner_live lock now)
    ]

-- The test by which `owned_task` selects a row.
abbrev pub owns : TaskCommit → TaskRecord → Bool
owns c t = t.id == commit_task c && accepts c t.status t.node_id t.attempts

-- The row that the commit may change, with its position.
unfoldable pub owned_task : MemoryState → TaskCommit → Result (Option (ℕ × TaskRecord))
owned_task s c = elim (find_from 0 (owns c) s.tasks) [
  | none ↦ ok none
  | some (i, t) ↦
      if is_some_and (commit_lane c) (λ lane. not (t.lane =$ lane))
      then err (unknown_lane t.lane)
      else ok (some (i, t))
]

-- A child takes its place in the workflow of its parent.
abbrev as_child : TaskRecord → TaskWrite → TaskWrite
as_child parent w =
    let t = w.task in
    record w {
      task = record t {
        parent_id = some parent.id;
        root_id = some (unwrap_or parent.root_id parent.id);
        node_id = none;
      };
    }

abbrev Prepared : Type 0
Prepared = TaskOutcome × List TaskRecord

module _ (x : Externals) where
  -- The children of a group in turn; `none` stands for a conflict or another refusal.
  stage_children :
      List TaskRecord → List TaskRecord → TaskRecord → List TaskWrite → ℕ → Option (List TaskRecord)
  stage_children stored children parent [] now = some children
  stage_children stored children parent (w ∷ ws) now =
      elim (stage_write x stored children (as_child parent w) now) [
        | ok (TaskReceipt.queued id, children') ↦ stage_children stored children' parent ws now
        | _ ↦ none
      ]

  -- `prepare`
  prepare_group :
      MemoryState → TaskRecord → String → List TaskWrite → List TaskRecord → ℕ → Result Prepared
  unfolding stage_children
  prepare_group s parent checkpoint group children now = elim s.conf [
    | none ↦ err (invalid_config "Store not initialized")
    | some conf ↦ elim (validate_group group conf) [
      | err e ↦ ok (TaskOutcome.fail (x.error_text e), children)
      | ok _ ↦ elim (stage_children s.tasks children parent group now) [
        | none ↦ ok (TaskOutcome.fail "All child preparation or identity conflict", children)
        | some children' ↦ ok (TaskOutcome.suspend checkpoint, children')
      ]
    ]
  ]

  abbrev identity_conflict : TaskOutcome
  identity_conflict = TaskOutcome.fail "Child task identity conflicts with an existing task"

  prepare_child :
      MemoryState → TaskRecord → String → TaskWrite → List TaskRecord → ℕ → Result Prepared
  prepare_child s parent checkpoint child children now =
      and_then (validate_write_lanes s (child ∷ [])) λ _.
        if child.ignore_conflicts
        then err (invalid_options "spawn cannot ignore conflicts")
        else elim (stage_write x s.tasks children (as_child parent child) now) [
          | ok (TaskReceipt.queued id, children') ↦ ok (TaskOutcome.suspend checkpoint, children')
          | ok (_, children') ↦ ok (identity_conflict, children')
          | err (idempotency_conflict id) ↦ ok (identity_conflict, children)
          | err (already_exists id) ↦ ok (identity_conflict, children)
          | err e ↦ err e
        ]

  unfoldable pub prepare_spawn :
      MemoryState → TaskRecord → TaskOutcome → List TaskRecord → ℕ → Result Prepared
  unfolding prepare_group prepare_child
  prepare_spawn s parent (TaskOutcome.all checkpoint group) children now =
      prepare_group s parent checkpoint group children now
  prepare_spawn s parent (TaskOutcome.spawn checkpoint child) children now =
      prepare_child s parent checkpoint child children now
  prepare_spawn s parent o children now = ok (o, children)

  -- The outcome that takes effect, with the children that it adds.
  unfoldable pub effective_outcome :
      MemoryState → TaskStoreConf → TaskRecord → TaskCommit → List TaskRecord → ℕ → Result Prepared
  unfolding prepare_spawn
  effective_outcome s conf t c children now =
      let o = unwrap_or (commit_outcome c) cancellation in
      if t.cancelled
      then ok (cancellation, children)
      else elim (capability_error t.kind o conf.handlers) [
        | some error ↦ ok (TaskOutcome.fail error, children)
        | none ↦ prepare_spawn s t o children now
      ]

  -- The row after its outcome, and the deliveries with its own.
  unfoldable pub settle_row : TaskStoreConf → TaskOutcome → TaskRetry → ℕ → Exec Row Done
  settle_row conf o policy now = do
    on_record (apply_outcome x o policy now)
    on_record (finalize_idempotency x conf now)
    queue_delivery

  abbrev pub lane_retry : TaskStoreConf → TaskRecord → Result TaskRetry
  lane_retry conf t =
      ok_or (Option.map (λ c. c.retry) (find_lane conf t.lane)) (unknown_lane t.lane)

  abbrev pub with_cancel : TaskRecord → TaskCommit → TaskRecord
  with_cancel t c = record t { cancelled = t.cancelled || is_cancel c }

  abbrev pub settled_row : TaskStoreConf → TaskOutcome → ℕ → TaskRecord → List Delivery → Result Row
  settled_row conf o now t deliveries = and_then (lane_retry conf t) λ policy.
      let (r, row) = settle_row conf o policy now (t, deliveries) in and_then r λ _. ok row

  -- `staged_task`: the row, the children and the deliveries after one commit.
  unfoldable pub staged_task :
      MemoryState
      → TaskRecord
      → TaskCommit
      → ℕ
      → List TaskRecord
      → List Delivery
      → Result (TaskRecord × List TaskRecord × List Delivery)
  unfolding effective_outcome settle_row
  staged_task s t c now children deliveries =
      and_then (ok_or s.conf (invalid_config "task store is not initialized")) λ conf.
        and_then (effective_outcome s conf (with_cancel t c) c children now) λ (o, children').
          and_then (settled_row conf o now (with_cancel t c) deliveries)
            λ (t', deliveries'). ok (t', children', deliveries')

-- The width of `len() as i32`.
abbrev as_i32 : ℕ → ℤ
as_i32 n = let m = n % 2 ^ 32 in if ltb m (2 ^ 31) then pos m else negsuc (2 ^ 32 - m - 1)

prepared_wait : ℕ → List TaskRecord → TaskWait
prepared_wait parent children =
    let members = filter (λ t. eq_id t.parent_id (some parent)) children in
    record { children = map (λ t. t.id) members; remaining_completions = as_i32 (length members) }

abbrev is_group : TaskCommit → Bool
is_group (outcome owner attempts id lane (TaskOutcome.all s c) token) = true
is_group _ = false

abbrev staged_waits : TaskCommit → TaskRecord → List TaskRecord → List (ℕ × TaskWait)
staged_waits c t children =
    if is_group c && same_status t.status TaskStatus.suspended
    then (t.id, prepared_wait t.id children) ∷ []
    else []

-- What has been staged so far.
pub record Stage : Type 0 where
  pub updates : List (ℕ × TaskRecord)
  pub children : List TaskRecord
  pub deliveries : List Delivery
  pub waits : List (ℕ × TaskWait)
  pub seen : List ℕ

abbrev pub empty_stage : Stage
empty_stage = record { updates = []; children = []; deliveries = []; waits = []; seen = [] }

module _ (x : Externals) where
  -- A commit whose fence holds: the row that it owns, if any, is staged.
  unfoldable pub stage_owned : MemoryState → TaskCommit → ℕ → Stage → Result Stage
  unfolding owned_task staged_task prepared_wait
  stage_owned s c now st = elim (owned_task s c) [
    | err e ↦ err e
    | ok none ↦ ok st
    | ok (some (i, t)) ↦
        and_then (staged_task x s t c now st.children st.deliveries) λ (t', children, deliveries).
          ok (record st {
            updates = st.updates ++ (i, t') ∷ [];
            children = children;
            deliveries = deliveries;
            waits = st.waits ++ staged_waits c t' children;
          })
  ]

  unfoldable pub stage_commit : MemoryState → TaskCommit → ℕ → Stage → Result Stage
  unfolding stage_owned memory_commit_allowed
  stage_commit s c now st =
      if any (λ id. id == commit_task c) st.seen
      then err (invalid_options "duplicate task outcome")
      else and_then (memory_commit_allowed x s c now) λ allowed.
        let marked : Stage = record st { seen = commit_task c ∷ st.seen } in
        if allowed then stage_owned s c now marked else ok marked

  unfoldable pub stage_commits : MemoryState → List TaskCommit → ℕ → Stage → Result Stage
  unfolding stage_commit
  stage_commits s [] now st = ok st
  stage_commits s (c ∷ cs) now st =
      and_then (stage_commit s c now st) λ st'. stage_commits s cs now st'

  unfoldable pub stage_outcomes : MemoryState → List TaskCommit → ℕ → Result Stage
  unfolding stage_commits
  stage_outcomes s commits now = stage_commits s commits now empty_stage
