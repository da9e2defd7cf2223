-- ===== src/Tasks/Store/LaneOwner.antt =====
-- The lifecycle of one locked lane's owner: the transitions of a lane lock in
-- vyuh/src/tasks/store/memory/lane_owner.rs.
pub mod Exclusive
pub mod Hooks
use mathlib.Core.Option
use vyuh.Prelude.{
  ℕ, zero, suc, ◌-◌, ltb, leb, ◌==◌, ◌=$◌, ◌&&◌, ◌||◌, not, if◌then◌else◌, String, Bool, true,
  false, Option, none, some, List, [], ◌∷◌, is_some, is_none, is_some_and, unwrap_or, eq_text,
  is_empty, Result, Done, ok, err, and_then, ok_or, Exec, pure, raise, lift, modify, gets, ◌>>=◌,
  ◌>>◌, task_execution_error, take,
}
use vyuh.Prelude.Int.{ℤ, checked_suc, i64_max, eqb_ℤ}
use vyuh.Tasks.Externals.{Externals}
use vyuh.Tasks.Types.{TaskLaneConf, TaskLaneLock, TaskRecord, nanos}
use vyuh.Tasks.Store.State.{
  MemoryLaneLock, LaneOwnerPhase, LaneHookAction, LaneHookResult, LaneOwnerPoll, LaneClaim,
  LanePoll, same_phase, same_action, MemoryState,
}
use vyuh.Tasks.Store.Queries.{checked_deadline, due_indices}

unfoldable pub memory_owner_live : MemoryLaneLock → ℕ → Bool
memory_owner_live owner now =
    is_some owner.owner_token && is_some_and owner.leased_until (λ deadline. ltb now deadline)

unfoldable pub memory_action : LaneOwnerPhase → Option LaneHookAction
memory_action LaneOwnerPhase.idling = some LaneHookAction.idle_hook
memory_action LaneOwnerPhase.busying = some LaneHookAction.busy_hook
memory_action _ = none

unfoldable pub memory_transition : LaneOwnerPhase → Exec MemoryLaneLock Done
memory_transition phase owner = elim (checked_suc i64_max owner.generation) [
  | none ↦ (err (task_execution_error "lane lifecycle generation overflowed"), owner)
  | some generation ↦ (
    ok tt,
    record owner {
      generation = generation;
      phase = phase;
      hook_retry_at = none;
      last_hook_error = none;
    },
  )
]

abbrev pub memory_activate : MemoryLaneLock → MemoryLaneLock
memory_activate owner = record owner {
  phase = LaneOwnerPhase.active;
  empty_since = none;
  hook_retry_at = none;
  last_hook_error = none;
}

abbrev pub memory_release : LaneOwnerPhase → MemoryLaneLock → MemoryLaneLock
memory_release phase owner = record owner {
  owner_id = none;
  owner_token = none;
  leased_until = none;
  phase = phase;
  flushing = false;
}

abbrev pub memory_owner_poll : MemoryLaneLock → Option LaneHookAction → LaneOwnerPoll
memory_owner_poll owner action = record {
  token = owner.owner_token;
  generation = owner.generation;
  phase = owner.phase;
  action = action;
  takeover = false;
}

-- `memory_poll_with`, and through it `memory_poll` and `memory_poll_action`.
abbrev pub memory_poll_with :
    String → Option LaneHookAction → Option ℕ → Exec MemoryLaneLock LanePoll
memory_poll_with lane action wake owner = (
  ok (record {
    lane = lane;
    tasks = [];
    reclaimed = 0;
    saturated = false;
    next_wake_in = wake;
    owner = some (memory_owner_poll owner action);
  }),
  owner,
)

abbrev pub memory_poll : String → Option ℕ → Exec MemoryLaneLock LanePoll
memory_poll lane wake = memory_poll_with lane none wake

-- A runner that is not the owner is told neither the token nor an action.
abbrev pub memory_wait_poll : String → Option ℕ → Exec MemoryLaneLock LanePoll
memory_wait_poll lane wake owner = (
  ok (record {
    lane = lane;
    tasks = [];
    reclaimed = 0;
    saturated = false;
    next_wake_in = wake;
    owner = some (record (memory_owner_poll owner none) { token = none });
  }),
  owner,
)

abbrev pub request_token : LaneClaim → Option String
request_token claim = Option.bind claim.owner λ request. request.token

abbrev pub is_quiescent : LaneClaim → Bool
is_quiescent claim = is_some_and claim.owner λ request. request.quiescent

module _ (x : Externals) where
  -- A lease that the runner holds under the token that it presents.
  abbrev holds_lease : MemoryLaneLock → ℕ → Option String → ℕ → Bool
  holds_lease owner runner requested now = is_some_and requested λ token.
      eq_text owner.owner_id (some (x.uuid_text runner))
      && eq_text owner.owner_token (some token)
      && memory_owner_live owner now

  abbrev renew_lease : ℕ → ℕ → Exec MemoryLaneLock Bool
  renew_lease duration now owner = elim (checked_deadline x now duration) [
    | err e ↦ (err e, owner)
    | ok deadline ↦ (ok true, record owner { leased_until = deadline })
  ]

  -- Whether the runner owns the lane after the call; `fresh` is the UUID of a new token.
  unfoldable pub memory_owner : ℕ → ℕ → LaneClaim → ℕ → ℕ → Exec MemoryLaneLock Bool
  memory_owner fresh runner claim duration now owner =
      let requested = request_token claim in
      if holds_lease owner runner requested now
      then renew_lease duration now owner
      else if is_some requested || memory_owner_live owner now
      then (ok false, owner)
      else renew_lease duration now (record owner {
        owner_id = some (x.uuid_text runner);
        owner_token = some (x.uuid_text fresh);
      })

  unfoldable pub memory_fail_busy : MemoryState → String → ℕ → Exec MemoryLaneLock Done
  memory_fail_busy s error now owner =
      let delay : ℕ = elim s.conf [ none ↦ nanos | some conf ↦ conf.poll_interval ] in
      let noted : MemoryLaneLock = record owner { last_hook_error = some error } in
      elim (checked_deadline x now delay) [
        | err e ↦ (err e, noted)
        | ok at ↦
            (ok tt, memory_release LaneOwnerPhase.busy_failed (record noted { hook_retry_at = at }))
      ]

abbrev has_idle_hook : TaskLaneConf → Bool
has_idle_hook lane = is_some (Option.bind lane.lane_lock λ lock. lock.idle_hook)

abbrev has_busy_hook : TaskLaneConf → Bool
has_busy_hook lane = is_some (Option.bind lane.lane_lock λ lock. lock.busy_hook)

unfoldable pub finish_memory_idle :
    MemoryState → String → TaskLaneConf → ℕ → Exec MemoryLaneLock Done
finish_memory_idle s name lane now =
    if is_empty (due_indices s.tasks name now)
    then modify (memory_release LaneOwnerPhase.idle)
    else if has_busy_hook lane
    then memory_transition LaneOwnerPhase.busying
    else modify memory_activate

abbrev memory_fail_idle : String → MemoryLaneLock → MemoryLaneLock
memory_fail_idle error owner =
    memory_release LaneOwnerPhase.idle_failed (record owner { last_hook_error = some error })

-- The effect of a hook that belongs to the lock's generation and awaited action.
abbrev settle_hook :
    Externals
    → MemoryState
    → LaneHookAction
    → Option String
    → String
    → TaskLaneConf
    → ℕ
    → Exec MemoryLaneLock Done
settle_hook x s LaneHookAction.idle_hook none name lane now = finish_memory_idle s name lane now
settle_hook x s LaneHookAction.idle_hook (some e) name lane now = modify (memory_fail_idle e)
settle_hook x s LaneHookAction.busy_hook none name lane now = modify memory_activate
settle_hook x s LaneHookAction.busy_hook (some e) name lane now = memory_fail_busy x s e now

unfoldable pub apply_memory_hook :
    Externals → MemoryState → LaneHookResult → String → TaskLaneConf → ℕ → Exec MemoryLaneLock Done
apply_memory_hook x s hook name lane now owner =
    if eqb_ℤ owner.generation hook.generation
      && is_some_and (memory_action owner.phase) (λ a. same_action a hook.action)
    then settle_hook x s hook.action hook.failure name lane now owner
    else (ok tt, owner)

unfoldable pub memory_start_idle : String → TaskLaneConf → Exec MemoryLaneLock LanePoll
unfolding memory_transition
memory_start_idle name lane =
    if has_idle_hook lane
    then (do
      memory_transition LaneOwnerPhase.idling
      memory_poll_with name (some LaneHookAction.idle_hook) none)
    else (do modify (memory_release LaneOwnerPhase.idle); memory_poll name none)

unfoldable pub memory_start_busy : String → TaskLaneConf → ℕ → Exec MemoryLaneLock LanePoll
unfolding memory_transition
memory_start_busy name lane now owner =
    if is_some_and owner.hook_retry_at (λ at. ltb now at)
    then (let wake = Option.map (λ at. at - now) owner.hook_retry_at in
        (do modify (memory_release LaneOwnerPhase.busy_failed); memory_poll name wake) owner)
    else if has_busy_hook lane
    then (do
      memory_transition LaneOwnerPhase.busying
      memory_poll_with name (some LaneHookAction.busy_hook) none)
        owner
    else (do modify memory_activate; memory_poll name (some 0)) owner
