-- ===== src/Examples/Claims.antt =====
-- Runs of whole turns on the example store: claims, commits, locked lanes, admissions, recovery.
use vyuh.Prelude.{
  ℕ, ◌≡◌, none, false, List, [], ◌∷◌, ◌++◌, map, refl, Result, ok, err, sort, insert_sorted,
  invalid_options, task_execution_error,
}
use vyuh.Prelude.Int.{pos}
use vyuh.Tasks.Types.{TaskOutcome, outcome}
use vyuh.Tasks.Rate.{
  full_bucket, reserve, refill, take_permits, apply_credit, advance_clock, next_permit,
  permit_delay,
}
use vyuh.Tasks.Retry.{exhausted}
use vyuh.Tasks.Store.State.{LanePoll, TaskPoll, CommitResult}
use vyuh.Tasks.Store.Queries.{
  is_due, due_indices, readiness, task_deadline, effective_lane_wake, finalize_idempotency,
}
use vyuh.Tasks.Store.Lifecycle.{claim_task, apply_outcome, transition, succeed, complete}
use vyuh.Tasks.Store.Commit.{
  accepts, validate_turn, capability_error, terminal_result, direct, prefers_local,
}
use vyuh.Tasks.Store.Claim.{
  by_readiness, fail_exhausted, finalize_candidates, finalize_candidate, permitted, claim_window,
  claim_row, claim_rows, claim_lane, touch, queue_delivery,
}
use vyuh.Tasks.Store.Reserve.{
  configured_rate, configured_retry, reserve_bucket, reserve_permits, claim_lane_state,
}
use vyuh.Tasks.Store.LaneTurn.{claim_open_lane, claim_lanes, claim_tasks_state}
use vyuh.Tasks.Store.Stage.{
  stage_outcomes, stage_commits, stage_commit, stage_owned, staged_task, owned_task, settle_row,
  effective_outcome, prepare_spawn, memory_commit_allowed,
}
use vyuh.Tasks.Store.Finish.{
  materialize, materialize_tasks, install, clear_terminal, reconcile_poll,
}
use vyuh.Tasks.Store.Deliver.{finalize_workflow, deliver_all, group_deliveries}
use vyuh.Tasks.Store.Workflow.{
  atomic_operation, run_turn, finish_turn, commit_outcomes_state, apply_updates,
}
use vyuh.Tasks.Store.Schedule.{store_admitted}
use vyuh.Tasks.Store.Operations.{
  claim_tasks, coordinate_lanes, validate_coordination, commit_tasks, commit_admitted,
  admit_committed,
}
use vyuh.Examples.Data.{world, waiting, store, done_by_7, claim_of}

abbrev lanes_of : List LanePoll → List ℕ
lanes_of [] = []
lanes_of (lane ∷ lanes) = map (λ t. t.id) lane.tasks ++ lanes_of lanes

abbrev handed : Result TaskPoll → List ℕ
handed (err e) = []
handed (ok poll) = lanes_of poll.lanes

-- A runner is handed the one task that waits.
claim_tasks_run : handed (claim_tasks world 0 7 (claim_of "mail" ∷ []) 10 60 200 store).0 ≡ 2 ∷ []
unfolding claim_tasks atomic_operation validate_turn run_turn finish_turn commit_outcomes_state
    apply_updates stage_outcomes stage_commits claim_tasks_state claim_lanes claim_open_lane
    configured_retry configured_rate fail_exhausted finalize_candidates finalize_candidate exhausted
    by_readiness due_indices is_due readiness sort insert_sorted reserve_permits reserve_bucket
    full_bucket reserve refill apply_credit advance_clock take_permits next_permit permit_delay
    claim_lane_state claim_lane claim_window permitted claim_rows claim_row claim_task touch
    effective_lane_wake task_deadline materialize materialize_tasks install finalize_workflow
    deliver_all group_deliveries clear_terminal reconcile_poll mathlib.Core.Option.bind
claim_tasks_run = refl

-- Coordination may not claim.
coordinate_lanes_run :
    (coordinate_lanes world 0 7 (claim_of "mail" ∷ []) 10 60 200 store).0
    ≡ err (invalid_options "lane coordination cannot claim work")
unfolding coordinate_lanes validate_coordination
coordinate_lanes_run = refl

abbrev refused_by : Result CommitResult → List ℕ
refused_by (err e) = []
refused_by (ok result) = result.rejected

-- The node that runs a task commits its outcome, and another node's outcome is rejected.
commit_tasks_run : refused_by (commit_tasks world 0 (done_by_7 ∷ []) 10 60 200 store).0 ≡ []
unfolding commit_tasks atomic_operation validate_turn run_turn finish_turn commit_outcomes_state
    apply_updates touch stage_outcomes stage_commits stage_commit stage_owned memory_commit_allowed
    owned_task accepts staged_task effective_outcome capability_error prepare_spawn settle_row
    apply_outcome transition succeed complete finalize_idempotency queue_delivery terminal_result
    materialize install finalize_workflow deliver_all group_deliveries clear_terminal reconcile_poll
    mathlib.Core.Option.bind
commit_tasks_run = refl

commit_admitted_run :
    refused_by
      (commit_admitted world 0
        (outcome 8 (pos 1) 1 "mail" TaskOutcome.complete none ∷ [])
        7
        4
        []
        10
        60
        200
        store).0
    ≡ 1 ∷ []
unfolding commit_admitted admit_committed direct prefers_local atomic_operation validate_turn
    run_turn finish_turn commit_outcomes_state apply_updates stage_outcomes stage_commits
    stage_commit stage_owned memory_commit_allowed owned_task accepts materialize install
    finalize_workflow deliver_all group_deliveries clear_terminal reconcile_poll
    mathlib.Core.Option.bind
commit_admitted_run = refl

-- A node that is not registered takes nothing on.
store_admitted_run :
    store_admitted world
      (record { task = waiting 3; ignore_conflicts = false; initial_delay = none } ∷ [])
      9
      4
      200
      store
    ≡ err (task_execution_error "task node registration missing")
unfolding store_admitted
store_admitted_run = refl
