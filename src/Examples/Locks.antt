-- ===== src/Examples/Locks.antt =====
-- Runs of a locked lane and of a recovery on the example store.
use mathlib.Core.Option
use vyuh.Prelude.{
  ℕ, ◌⊎◌, ◌≡◌, Option, none, some, false, true, List, [], ◌∷◌, map, refl, lookup, text_key, Result,
  ok, err, sort, insert_sorted,
}
use vyuh.Prelude.Int.{pos}
use vyuh.Tasks.Types.{TaskRecord, TaskLaneConf}
use vyuh.Tasks.Retry.{exhausted}
use vyuh.Tasks.Store.State.{
  Turn, MemoryLaneLock, LaneOwnerPhase, LaneHookAction, LaneHookResult, LanePoll, LaneClaim,
}
use vyuh.Tasks.Store.Queries.{
  is_due, due_indices, readiness, task_deadline, effective_lane_wake, checked_deadline,
  chrono_duration,
}
use vyuh.Tasks.Store.Lifecycle.{claim_task}
use vyuh.Tasks.Store.Claim.{
  by_readiness, fail_exhausted, finalize_candidates, finalize_candidate, permitted, claim_window,
  claim_row, claim_rows, claim_lane, touch,
}
use vyuh.Tasks.Store.Reserve.{reserve_permits, claim_lane_state}
use vyuh.Tasks.Store.LaneOwner.{
  memory_owner, memory_owner_live, memory_action, memory_transition, memory_start_idle,
  memory_start_busy, memory_fail_busy, finish_memory_idle, apply_memory_hook,
}
use vyuh.Tasks.Store.LaneOwner.Hooks.{Awaits, HookStep, apply_memory_hook-HookStep}
use vyuh.Tasks.Store.LanePhase.{
  memory_candidates, memory_flush, memory_empty, memory_claim, memory_flush_poll, memory_phase_poll,
}
use vyuh.Tasks.Store.LaneTurn.{claim_owned_inner, claim_owned_state}
use vyuh.Examples.Data.{world, waiting, store, mail}

-- A lane whose cohorts have one task, with a hook for the time when it has none.
abbrev bulk : TaskLaneConf
bulk = record mail {
  global_rate = none;
  lane_lock = some (record {
    batch_size = 1;
    deadline = none;
    idle_after = 0;
    idle_hook = some "tidy";
    busy_hook = some "wake";
  });
}

abbrev lock_in : LaneOwnerPhase → MemoryLaneLock
lock_in phase = record {
  owner_id = none;
  owner_token = none;
  leased_until = none;
  phase = phase;
  flushing = false;
  empty_since = none;
  generation = pos 0;
  hook_retry_at = none;
  last_hook_error = none;
}

abbrev turn_with : List TaskRecord → LaneOwnerPhase → Turn
turn_with tasks phase = record {
  state = record store { tasks = tasks; lane_locks = ("mail", lock_in phase) ∷ [] };
  deliveries = [];
  undo = [];
  uuids = 0;
}

abbrev asking : Option LaneHookResult → LaneClaim
asking hook = record {
  lane = "mail";
  limit = 8;
  owner = some (record {
    token = none;
    quiescent = true;
    allow_claim = true;
    completed_work = false;
    hook = hook;
  });
}

abbrev given : Result LanePoll → List ℕ
given (err e) = []
given (ok poll) = map (λ t. t.id) poll.tasks

abbrev phase_after : Turn → Option LaneOwnerPhase
phase_after turn = Option.map (λ lock. lock.phase) (lookup "mail" turn.state.lane_locks)

-- The owner of an active lane is given the cohort that is full.
claim_cohort_run :
    given
      (claim_owned_state world 7
        (asking none)
        bulk
        60
        200
        (turn_with (waiting 2 ∷ []) LaneOwnerPhase.active)).0
    ≡ 2 ∷ []
unfolding claim_owned_state claim_owned_inner memory_owner memory_owner_live checked_deadline
    chrono_duration memory_action memory_phase_poll memory_candidates by_readiness due_indices
    is_due readiness sort insert_sorted memory_flush_poll memory_flush memory_claim fail_exhausted
    finalize_candidates finalize_candidate exhausted reserve_permits claim_lane_state claim_lane
    claim_window permitted claim_rows claim_row claim_task touch effective_lane_wake task_deadline
    mathlib.Core.Option.bind
claim_cohort_run = refl

-- An active lane that is empty starts to idle, and an idle lane with work starts to wake up.
start_idle_run :
    phase_after
      (claim_owned_state world 7 (asking none) bulk 60 200 (turn_with [] LaneOwnerPhase.active)).1
    ≡ some LaneOwnerPhase.idling
unfolding claim_owned_state claim_owned_inner memory_owner memory_owner_live checked_deadline
    chrono_duration memory_action memory_phase_poll memory_candidates by_readiness due_indices sort
    memory_empty memory_start_idle memory_transition mathlib.Core.Option.bind
start_idle_run = refl

start_busy_run :
    phase_after
      (claim_owned_state world 7
        (asking none)
        bulk
        60
        200
        (turn_with (waiting 2 ∷ []) LaneOwnerPhase.idle)).1
    ≡ some LaneOwnerPhase.busying
unfolding claim_owned_state claim_owned_inner memory_owner memory_owner_live checked_deadline
    chrono_duration memory_action memory_phase_poll memory_candidates by_readiness due_indices
    is_due readiness sort insert_sorted memory_start_busy memory_transition mathlib.Core.Option.bind
start_busy_run = refl

-- The idle hook's end is the end of idling, and its failure is noted.
finish_idle_run :
    phase_after
      (claim_owned_state world 7
        (asking
          (some (record { generation = pos 0; action = LaneHookAction.idle_hook; failure = none })))
        bulk
        60
        200
        (turn_with [] LaneOwnerPhase.idling)).1
    ≡ some LaneOwnerPhase.idle
unfolding claim_owned_state claim_owned_inner memory_owner memory_owner_live checked_deadline
    chrono_duration apply_memory_hook finish_memory_idle memory_action memory_phase_poll
    memory_candidates by_readiness due_indices sort memory_empty memory_transition
    mathlib.Core.Option.bind
finish_idle_run = refl

fail_busy_run :
    phase_after
      (claim_owned_state world 7
        (asking (
          some (record {
            generation = pos 0;
            action = LaneHookAction.busy_hook;
            failure = some "no";
          })))
        bulk
        60
        200
        (turn_with [] LaneOwnerPhase.busying)).1
    ≡ some LaneOwnerPhase.busy_failed
unfolding claim_owned_state claim_owned_inner memory_owner memory_owner_live checked_deadline
    chrono_duration apply_memory_hook memory_fail_busy memory_action memory_phase_poll
    memory_candidates by_readiness due_indices sort memory_empty memory_transition
    mathlib.Core.Option.bind
fail_busy_run = refl

abbrev tidied : LaneHookResult
tidied = record { generation = pos 0; action = LaneHookAction.idle_hook; failure = none }

apply_memory_hook-HookStep_example :
    ((lock_in LaneOwnerPhase.idle ≡ lock_in LaneOwnerPhase.idling)
      × (¬ ((pos 0 ≡ pos 0) × Awaits LaneOwnerPhase.idling LaneHookAction.idle_hook)))
    ⊎ ((pos 0 ≡ pos 0)
        × HookStep LaneHookAction.idle_hook none LaneOwnerPhase.idling LaneOwnerPhase.idle)
unfolding apply_memory_hook finish_memory_idle memory_action due_indices mathlib.Core.Option.bind
apply_memory_hook-HookStep_example =
    apply_memory_hook-HookStep world (record store { tasks = [] }) tidied "mail" bulk 200
      (lock_in LaneOwnerPhase.idling) (lock_in LaneOwnerPhase.idle) refl
