-- ===== src/Tasks/Store/Workflow.antt =====
-- One atomic turn of the store: `run_turn` and `atomic_operation` in
-- vyuh/src/tasks/store/memory/workflow.rs, and `commit_outcomes_state` in store.rs.
pub mod Undo
pub mod Rows
pub mod Claims
pub mod Owned
pub mod Lanes
pub mod Staged
pub mod Fence
pub mod Atomic
use vyuh.Prelude.{
  ℕ, zero, suc, ◌==◌, ◌=$◌, ◌&&◌, ◌||◌, not, if◌then◌else◌, String, Bool, true, false, Option, none,
  some, List, [], ◌∷◌, ◌++◌, reverse, any, filter, map, update_first, HashMap, Result, Done, ok,
  err, and_then, Exec, pure, raise, lift, modify, gets, ◌>>=◌, ◌>>◌, continue,
}
use vyuh.Tasks.Externals.{Externals}
use vyuh.Tasks.Types.{TaskRecord, TaskCommit}
use vyuh.Tasks.Store.State.{
  MemoryState, MemoryTaskStore, Turn, TaskPoll, LanePoll, LaneClaim, CommitResult, TaskWait,
  LaneOwnerPhase,
}
use vyuh.Tasks.Store.Commit.{commit_task, validate_turn}
use vyuh.Tasks.Store.Claim.{Row, touch}
use vyuh.Tasks.Store.LaneTurn.{claim_tasks_state}
use vyuh.Tasks.Store.Stage.{Stage, stage_outcomes}
use vyuh.Tasks.Store.Finish.{has_id, materialize, install, clear_terminal, reconcile_poll}
use vyuh.Tasks.Store.Deliver.{finalize_workflow}

abbrev replace : TaskRecord → Exec Row Done
replace t (old, ds) = (ok tt, (t, ds))

-- The staged rows take their places.
unfoldable pub apply_updates : List (ℕ × TaskRecord) → Exec Turn Done
apply_updates [] = pure tt
apply_updates ((i, t) ∷ updates) = do
  touch "staged task disappeared" i (replace t)
  apply_updates updates

unfoldable pub commit_outcomes_state : Externals → List TaskCommit → ℕ → Exec Turn Stage
unfolding apply_updates
commit_outcomes_state x commits now = do
  stage ← (λ turn. (stage_outcomes x turn.state commits now, turn))
  apply_updates stage.updates
  pure stage

abbrev owner_phases : MemoryState → HashMap String LaneOwnerPhase
owner_phases s = map (λ (name, lock). (name, lock.phase)) s.lane_locks

module _ (x : Externals) where
  abbrev claims_of : Option ℕ → List LaneClaim → ℕ → ℕ → Exec Turn TaskPoll
  claims_of none claims lease now = pure (record { wake_lanes = []; lanes = [] })
  claims_of (some runner) claims lease now = claim_tasks_state x runner claims lease now

  abbrev rejected : List TaskCommit → List TaskRecord → List ℕ
  rejected commits undo =
      map commit_task (filter (λ c. not (any (has_id (commit_task c)) undo)) commits)

  -- The end of a turn, after all that can fail.
  unfoldable pub finish_turn :
      List TaskCommit
      → Stage
      → List LanePoll
      → HashMap String LaneOwnerPhase
      → ℕ
      → Turn
      → (TaskPoll × CommitResult) × MemoryState
  finish_turn commits stage polls phases now turn =
      let (s1, polls1) = materialize x turn.state polls in
      let (s2, wake) = install s1 stage.waits now in
      let (s3, wakes) = finalize_workflow x s2 stage.children turn.deliveries now in
      let s4 = clear_terminal s3 turn.undo in
      let all_wakes = wake ++ wakes in
      let (s5, polls2) = reconcile_poll s4 polls1 all_wakes phases now in
      (
        (
          record { wake_lanes = all_wakes; lanes = polls2 },
          record { wake_lanes = all_wakes; rejected = rejected commits turn.undo; tasks = [] },
        ),
        s5,
      )

  unfoldable pub run_turn :
      Option ℕ → List LaneClaim → List TaskCommit → ℕ → ℕ → Exec Turn (TaskPoll × CommitResult)
  unfolding finish_turn commit_outcomes_state
  run_turn runner claims commits lease now = do
    stage ← commit_outcomes_state x commits now
    modify λ turn. record turn { deliveries = stage.deliveries }
    phases ← gets λ turn. owner_phases turn.state
    poll ← claims_of runner claims lease now
    (λ turn.
        let (r, s) = finish_turn commits stage poll.lanes phases now turn in
        (ok r, record turn { state = s }))

-- The first row of the same identity takes back its old value.
abbrev restore : List TaskRecord → TaskRecord → List TaskRecord
restore tasks old = update_first (has_id old.id) (λ _. old) tasks

pub rollback : List TaskRecord → List TaskRecord → List TaskRecord
rollback [] tasks = tasks
rollback (old ∷ olds) tasks = rollback olds (restore tasks old)

abbrev start_turn : MemoryState → ℕ → Turn
start_turn s uuids = record { state = s; deliveries = []; undo = []; uuids = uuids }

abbrev maximum_children : MemoryState → ℕ
maximum_children s = elim s.conf [ none ↦ 256 | some conf ↦ conf.max_all_children ]

-- A failed turn gives back the touched rows, newest first, and the rates and locks.
abbrev undo_turn : MemoryState → Turn → MemoryState
undo_turn before turn =
    let s = turn.state in
    record s {
      tasks = rollback (reverse turn.undo) s.tasks;
      rates = before.rates;
      lane_locks = before.lane_locks;
    }

-- The turn's result; on a failure its state is undone. `uuids` counts the UUIDs made before.
abbrev finish :
    MemoryState
    → Result (TaskPoll × CommitResult) × Turn
    → Result (TaskPoll × CommitResult) × MemoryState
finish before (ok r, turn) = (ok r, turn.state)
finish before (err e, turn) = (err e, undo_turn before turn)

unfoldable pub atomic_operation :
    Externals
    → ℕ
    → Option ℕ
    → List LaneClaim
    → List TaskCommit
    → ℕ
    → ℕ
    → ℕ
    → Exec MemoryState (TaskPoll × CommitResult)
unfolding run_turn rollback
atomic_operation x uuids runner claims commits batch lease now s =
    elim (validate_turn commits batch (maximum_children s)) [
      | err e ↦ (err e, s)
      | ok _ ↦ finish s (run_turn x runner claims commits lease now (start_turn s uuids))
    ]
