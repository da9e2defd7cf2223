-- ===== src/Tasks/Store/LanePhase.antt =====
-- The phases of a locked lane and its cohorts: vyuh/src/tasks/store/memory/lane_owner.rs.
use mathlib.Core.Option
use vyuh.Prelude.{
  ℕ, ◌-◌, min, ltb, leb, ◌=$◌, ◌&&◌, ◌||◌, not, if◌then◌else◌, String, Bool, true, false, Option,
  none, some, List, [], ◌∷◌, is_some_and, unwrap_or, eq_id, length, get_elem?, filter, take,
  text_key, Result, ok, err, and_then, ok_or, Exec, ◌>>=◌, ◌>>◌, invalid_config,
}
use vyuh.Tasks.Externals.{Externals}
use vyuh.Tasks.Types.{TaskKind, TaskRecord, TaskLaneConf, TaskStoreConf, same_kind}
use vyuh.Tasks.Store.State.{Turn, MemoryLaneLock, LaneOwnerPhase, LaneClaim, LanePoll, same_phase}
use vyuh.Tasks.Store.Queries.{is_due, due_indices, readiness, task_deadline, chrono_duration}
use vyuh.Tasks.Store.Claim.{by_readiness, fail_exhausted}
use vyuh.Tasks.Store.Reserve.{reserve_permits, on_state, reservation, claim_lane_state}
use vyuh.Tasks.Store.LaneOwner.{
  memory_activate, memory_release, memory_owner_poll, memory_poll, memory_start_idle,
  memory_start_busy, is_quiescent,
}

-- The state of a turn and the lock of the lane, which is out of the map while the lane is polled.
abbrev pub Lane : Type 0
Lane = Turn × MemoryLaneLock

abbrev pub on_owner {ℓ} : {A : Type ℓ} → Exec MemoryLaneLock A → Exec Lane A
on_owner m (turn, owner) = let (r, owner') = m owner in (r, (turn, owner'))

abbrev on_turn {ℓ} : {A : Type ℓ} → Exec Turn A → Exec Lane A
on_turn m (turn, owner) = let (r, turn') = m turn in (r, (turn', owner))

abbrev pub lock_size : TaskLaneConf → ℕ
lock_size lane = elim lane.lane_lock [ none ↦ 1 | some lock ↦ lock.batch_size ]

unfoldable pub memory_candidates : List TaskRecord → String → TaskLaneConf → ℕ → List ℕ
memory_candidates tasks name lane now =
    take (lock_size lane) (by_readiness tasks now (due_indices tasks name now))

abbrev first_ready : List TaskRecord → List ℕ → ℕ → Option ℕ
first_ready tasks [] now = none
first_ready tasks (i ∷ is) now = Option.map (λ t. (readiness t now).0) (get_elem? tasks i)

module _ (x : Externals) where
  -- The wait until the oldest candidate has waited for the batch deadline.
  unfoldable pub memory_flush_wake : List TaskRecord → List ℕ → TaskLaneConf → ℕ → Result (Option ℕ)
  memory_flush_wake tasks candidates lane now =
      elim (Option.bind lane.lane_lock λ lock. lock.deadline) [
        | none ↦ ok none
        | some deadline ↦ elim (first_ready tasks candidates now) [
          | none ↦ ok none
          | some oldest ↦ and_then (chrono_duration x deadline) λ d.
              and_then
                (ok_or (x.checked_add_signed oldest d)
                  (invalid_config "lane lock deadline exceeds timestamp range"))
                λ due. ok (some (due - now))
        ]
      ]

  unfoldable pub memory_flush : List TaskRecord → List ℕ → TaskLaneConf → ℕ → Result Bool
  unfolding memory_flush_wake
  memory_flush tasks candidates lane now = elim lane.lane_lock [
    | none ↦ err (invalid_config "locked lane lost its policy")
    | some lock ↦
        if leb lock.batch_size (length candidates)
        then ok true
        else and_then (memory_flush_wake tasks candidates lane now) λ wake. ok (eq_id wake (some 0))
  ]

-- The work of a lane that a claim may start, and that permits are asked for.
abbrev claimable_work : String → ℕ → List TaskRecord → List TaskRecord
claimable_work lane now =
    filter λ t. same_kind t.kind TaskKind.work && not t.cancelled && t.lane =$ lane && is_due t now

unfoldable pub memory_empty :
    List TaskRecord → LaneClaim → TaskLaneConf → ℕ → Exec MemoryLaneLock LanePoll
memory_empty tasks claim lane now owner =
    let parked =
      same_phase owner.phase LaneOwnerPhase.idle
      || same_phase owner.phase LaneOwnerPhase.idle_failed
      || same_phase owner.phase LaneOwnerPhase.busy_failed in
    let delay : ℕ = elim lane.lane_lock [ none ↦ 0 | some lock ↦ lock.idle_after ] in
    let started = unwrap_or owner.empty_since now in
    let waiting : MemoryLaneLock = record owner { empty_since = some started } in
    if parked
    then memory_poll claim.lane (task_deadline tasks claim.lane now)
        (memory_release owner.phase owner)
    else if not (is_quiescent claim)
    then memory_poll claim.lane none owner
    else if ltb (now - started) delay
    then memory_poll claim.lane (some (delay - (now - started))) waiting
    else memory_start_idle claim.lane lane waiting

abbrev pub require_conf : Exec Turn TaskStoreConf
require_conf turn = (ok_or turn.state.conf (invalid_config "task store is not initialized"), turn)

abbrev pub count_work : String → ℕ → Exec Turn ℕ
count_work lane now turn = (ok (length (claimable_work lane now turn.state.tasks)), turn)

module _ (x : Externals) where
  unfoldable pub memory_claim : ℕ → LaneClaim → TaskLaneConf → ℕ → Exec Turn LanePoll
  memory_claim runner claim lane now = do
    conf ← require_conf
    fail_exhausted x claim.lane (lock_size lane) now conf lane.retry
    work ← count_work claim.lane now
    let candidates = min work (lock_size lane)
    permits ← on_state (reserve_permits x claim.lane candidates lane.global_rate now)
    let cohort : LaneClaim = record { lane = claim.lane; limit = lock_size lane; owner = none }
    claim_lane_state runner (reservation cohort candidates permits) now

  abbrev claim_cohort : ℕ → LaneClaim → TaskLaneConf → ℕ → Exec Lane LanePoll
  claim_cohort runner claim lane now (turn, owner) =
      let (r, turn') = memory_claim runner claim lane now turn in
      (
        and_then r λ poll. ok (record poll { owner = some (memory_owner_poll owner none) }),
        (turn', owner),
      )

  -- A cohort that is due, or already being flushed.
  abbrev pub flush_cohort : ℕ → LaneClaim → TaskLaneConf → ℕ → Exec Lane LanePoll
  flush_cohort runner claim lane now (turn, owner) =
      let flushing : MemoryLaneLock = record owner { flushing = true } in
      if is_some_and claim.owner (λ request. request.allow_claim)
      then claim_cohort runner claim lane now (turn, flushing)
      else on_owner (memory_poll claim.lane (some 0)) (turn, flushing)

  unfoldable pub memory_flush_poll : List ℕ → ℕ → LaneClaim → TaskLaneConf → ℕ → Exec Lane LanePoll
  memory_flush_poll candidates runner claim lane now (turn, owner) =
      let tasks = turn.state.tasks in
      elim (if owner.flushing then ok true else memory_flush x tasks candidates lane now) [
        | err e ↦ (err e, (turn, owner))
        | ok true ↦ flush_cohort runner claim lane now (turn, owner)
        | ok false ↦ elim (memory_flush_wake x tasks candidates lane now) [
          | err e ↦ (err e, (turn, owner))
          | ok wake ↦ on_owner (memory_poll claim.lane wake) (turn, owner)
        ]
      ]

  abbrev pub wake_idle_failure : LaneClaim → MemoryLaneLock → MemoryLaneLock
  wake_idle_failure claim owner =
      if same_phase owner.phase LaneOwnerPhase.idle_failed
        && is_some_and claim.owner (λ request. request.completed_work)
      then memory_activate owner
      else owner

  -- The lane once its lock has settled on a phase: nothing to do, a start, or a cohort.
  abbrev pub poll_candidates : List ℕ → ℕ → LaneClaim → TaskLaneConf → ℕ → Exec Lane LanePoll
  poll_candidates [] runner claim lane now (turn, owner) =
      on_owner (memory_empty turn.state.tasks claim lane now)
        (turn, record owner { flushing = false })
  poll_candidates (i ∷ is) runner claim lane now (turn, owner) =
      let kept : MemoryLaneLock = record owner { empty_since = none } in
      if same_phase owner.phase LaneOwnerPhase.idle
        || same_phase owner.phase LaneOwnerPhase.busy_failed
      then on_owner (memory_start_busy claim.lane lane now) (turn, kept)
      else memory_flush_poll (i ∷ is) runner claim lane now (turn, kept)

  unfoldable pub memory_phase_poll : ℕ → LaneClaim → TaskLaneConf → ℕ → Exec Lane LanePoll
  unfolding memory_flush_poll
  memory_phase_poll runner claim lane now (turn, owner) =
      if (same_phase owner.phase LaneOwnerPhase.active
          || same_phase owner.phase LaneOwnerPhase.idle_failed)
        && not (is_quiescent claim)
      then on_owner (memory_poll claim.lane none) (turn, owner)
      else (let candidates = memory_candidates turn.state.tasks claim.lane lane now in
          poll_candidates candidates runner claim lane now (turn, wake_idle_failure claim owner))
