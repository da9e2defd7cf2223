-- ===== src/Examples/Turns.antt =====
-- Turns of the store, claims and lane locks at work.
use vyuh.Prelude.{◌≡◌, none, some, false, true, [], ◌∷◌, refl, unknown_lane, sort, insert_sorted}
use vyuh.Prelude.Int.{pos}
use vyuh.Tasks.Types.{TaskRecord, TaskStatus}
use vyuh.Tasks.Store.State.{MemoryLaneLock, LaneOwnerPhase}
use vyuh.Tasks.Store.Commit.{accepts, validate_turn, capability_error}
use vyuh.Tasks.Store.Queries.{
  finalize_idempotency, is_due, due_indices, readiness, checked_deadline, chrono_duration,
}
use vyuh.Tasks.Store.Lifecycle.{apply_outcome, transition, succeed, complete, claim_task}
use vyuh.Tasks.Store.Claim.{
  touch, queue_delivery, claim_lane, claim_rows, claim_row, claim_window, by_readiness, permitted,
}
use vyuh.Tasks.Store.Claim.Bounds.{Bounded, claim_lane-Bounded}
use vyuh.Tasks.Store.LaneOwner.{memory_owner, memory_owner_live}
use vyuh.Tasks.Store.LaneOwner.Exclusive.{Decided, memory_owner-Decided}
use vyuh.Tasks.Store.LaneTurn.{claim_lanes, claim_tasks_state}
use vyuh.Tasks.Store.Stage.{
  memory_commit_allowed, owned_task, effective_outcome, prepare_spawn, settle_row, staged_task,
  stage_owned, stage_commit, stage_commits, stage_outcomes,
}
use vyuh.Tasks.Store.Workflow.{apply_updates, commit_outcomes_state, run_turn, atomic_operation}
use vyuh.Tasks.Store.Workflow.Fence.{Fenced, staged_task-Fenced}
use vyuh.Tasks.Store.Workflow.Atomic.{atomic_operation-failed}
use vyuh.Examples.Data.{world, world_clock, store, turn, running_on_7, waiting, done_by_7, claim_of}

-- The outcome of task 1 is staged and applied, then the claim of an unknown lane fails.
atomic_operation-failed_example :
    (atomic_operation world 0 (some 7) (claim_of "nowhere" ∷ []) (done_by_7 ∷ []) 10 60 200 store).1
    ≡ store
unfolding atomic_operation run_turn commit_outcomes_state apply_updates touch stage_outcomes
    stage_commits stage_commit stage_owned memory_commit_allowed owned_task accepts staged_task
    effective_outcome capability_error prepare_spawn settle_row apply_outcome transition succeed
    complete finalize_idempotency queue_delivery claim_tasks_state claim_lanes validate_turn
    mathlib.Core.Option.bind
atomic_operation-failed_example =
    atomic_operation-failed store (((refl, tt), (tt, tt))) world 0 (some 7)
      (claim_of "nowhere" ∷ []) (done_by_7 ∷ []) 10 60 200 (unknown_lane "nowhere") refl

abbrev finished : TaskRecord
finished = record (running_on_7 1) {
  status = TaskStatus.succeeded;
  node_id = none;
  updated_at = 200;
  completed_at = some 200;
  ready_at = none;
  last_result = some "{\"Ok\":null}";
}

staged_task-Fenced_example : Fenced store done_by_7 0 (running_on_7 1) finished
unfolding owned_task accepts staged_task effective_outcome capability_error prepare_spawn settle_row
    apply_outcome transition succeed complete finalize_idempotency queue_delivery
staged_task-Fenced_example =
    staged_task-Fenced world store done_by_7 200 0 (running_on_7 1) finished [] [] [] [] refl refl

abbrev given : TaskRecord
given = record (waiting 2) {
  status = TaskStatus.running;
  attempts = pos 1;
  step_attempts = pos 1;
  node_id = some 7;
  updated_at = 200;
}

claim_lane-Bounded_example : Bounded 7 (claim_of "mail") 1 (record {
  lane = "mail";
  tasks = given ∷ [];
  reclaimed = 0;
  saturated = false;
  next_wake_in = none;
  owner = none;
})
unfolding claim_lane claim_rows claim_row claim_task touch claim_window by_readiness permitted
    due_indices is_due readiness sort insert_sorted mathlib.Core.Option.map
claim_lane-Bounded_example = claim_lane-Bounded 7 (claim_of "mail") 1 200 turn refl

abbrev free_lock : MemoryLaneLock
free_lock = record {
  owner_id = none;
  owner_token = none;
  leased_until = none;
  phase = LaneOwnerPhase.active;
  flushing = false;
  empty_since = none;
  generation = pos 0;
  hook_retry_at = none;
  last_hook_error = none;
}

memory_owner-Decided_example :
    Decided world world_clock true 7 (claim_of "mail") 60 200 free_lock (record free_lock {
      owner_id = some "00000000-0000-0000-0000-000000000000";
      owner_token = some "00000000-0000-0000-0000-000000000000";
      leased_until = some 260;
    })
unfolding memory_owner memory_owner_live checked_deadline chrono_duration mathlib.Core.Option.bind
memory_owner-Decided_example =
    memory_owner-Decided world world_clock 1000 7 (claim_of "mail") 60 200 free_lock _ true refl
