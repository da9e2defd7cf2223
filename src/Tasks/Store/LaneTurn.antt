-- ===== src/Tasks/Store/LaneTurn.antt =====
-- One turn of a locked lane, and the claims of all lanes:
-- vyuh/src/tasks/store/memory/lane_owner.rs and `claim_tasks_state` of store.rs.
use mathlib.Core.Option
use Prim.Native.String.{◌++◌}
use vyuh.Prelude.{
  ℕ, suc, ◌-◌, leb, ◌=$◌, ◌&&◌, if◌then◌else◌, String, Bool, true, false, Option, none, some, List,
  [], ◌∷◌, is_some, is_none, is_some_and, or_else, eq_id, lookup, insert, remove, text_key, Done,
  ok, err, and_then, Exec, pure, raise, modify, ◌>>=◌, ◌>>◌, invalid_config, unknown_lane,
}
use vyuh.Tasks.Externals.{Externals}
use vyuh.Tasks.Types.{TaskStatus, TaskRecord, TaskLaneConf, TaskStoreConf, same_status, find_lane}
use vyuh.Tasks.Store.State.{Turn, MemoryLaneLock, LaneOwnerPoll, LaneClaim, LanePoll, TaskPoll}
use vyuh.Tasks.Store.Queries.{task_deadline}
use vyuh.Tasks.Store.Claim.{touch, fail_exhausted, bounded_claim, Row, on_record}
use vyuh.Tasks.Store.Reserve.{
  configured_rate, configured_retry, reserve_permits, on_state, reservation, claim_lane_state,
}
use vyuh.Tasks.Store.LaneOwner.{
  memory_action, memory_owner, memory_poll_with, memory_wait_poll, apply_memory_hook, request_token,
}
use vyuh.Tasks.Store.LanePhase.{Lane, on_owner, require_conf, count_work, memory_phase_poll}

module _ (x : Externals) where
  -- The rows of a lane that the runner runs.
  abbrev running_from : ℕ → List TaskRecord → ℕ → String → List ℕ
  running_from i [] runner lane = []
  running_from i (t ∷ ts) runner lane =
      let rest = running_from (suc i) ts runner lane in
      if eq_id t.node_id (some runner) && t.lane =$ lane && same_status t.status TaskStatus.running
      then i ∷ rest
      else rest

  abbrev pub release_row : ℕ → Exec Row Done
  release_row now = on_record (modify λ t. record t { node_id = none; updated_at = now })

  -- A runner that lost the lane gives up what it runs there.
  unfoldable pub release_rows : ℕ → List ℕ → Exec Turn Done
  release_rows now [] = pure tt
  release_rows now (i ∷ is) = do touch "task disappeared" i (release_row now); release_rows now is

  abbrev lease_wake : MemoryLaneLock → ℕ → Option ℕ
  lease_wake owner now =
      Option.bind owner.leased_until
        λ deadline. if leb now deadline then some (deadline - now) else none

  abbrev pub lost_lane : ℕ → LaneClaim → ℕ → Exec Lane LanePoll
  lost_lane runner claim now (turn, owner) =
      let released =
        if is_some (request_token claim)
        then release_rows now (running_from 0 turn.state.tasks runner claim.lane) turn
        else (ok tt, turn) in
      let turn' : Turn = released.1 in
      let wake = or_else (lease_wake owner now) (task_deadline turn'.state.tasks claim.lane now) in
      on_owner (memory_wait_poll claim.lane wake) (turn', owner)

  abbrev pub settle : LaneClaim → TaskLaneConf → ℕ → Exec Lane Done
  settle claim lane now (turn, owner) = elim (Option.bind claim.owner λ request. request.hook) [
    | none ↦ (ok tt, (turn, owner))
    | some hook ↦ on_owner (apply_memory_hook x turn.state hook claim.lane lane now) (turn, owner)
  ]

  abbrev pub poll_owned : ℕ → LaneClaim → TaskLaneConf → ℕ → Exec Lane LanePoll
  poll_owned runner claim lane now (turn, owner) = elim (memory_action owner.phase) [
    | some action ↦ on_owner (memory_poll_with claim.lane (some action) none) (turn, owner)
    | none ↦ memory_phase_poll x runner claim lane now (turn, owner)
  ]

  abbrev pub lane_turn : Bool → ℕ → LaneClaim → TaskLaneConf → ℕ → Exec Lane LanePoll
  lane_turn true runner claim lane now = do settle claim lane now; poll_owned runner claim lane now
  lane_turn false runner claim lane now = lost_lane runner claim now

  unfoldable pub claim_owned_inner : ℕ → LaneClaim → TaskLaneConf → ℕ → ℕ → Exec Lane LanePoll
  unfolding release_rows
  claim_owned_inner runner claim lane duration now = do
    owned ← (λ (turn, owner).
        on_owner (memory_owner x (x.now_v7 turn.uuids) runner claim duration now)
          (record turn { uuids = suc turn.uuids }, owner))
    lane_turn owned runner claim lane now

  abbrev is_takeover : LaneClaim → MemoryLaneLock → LanePoll → Bool
  is_takeover claim before poll =
      is_some_and claim.owner (λ request. is_none request.token)
      && is_some before.owner_token
      && is_some_and poll.owner (λ owner. is_some owner.token)

  abbrev marked : LaneOwnerPoll → LaneOwnerPoll
  marked owner = record owner { takeover = true }

  abbrev with_takeover : LaneClaim → MemoryLaneLock → LanePoll → LanePoll
  with_takeover claim before poll =
      if is_takeover claim before poll
      then record poll { owner = Option.map marked poll.owner }
      else poll

  unfoldable pub claim_owned_state : ℕ → LaneClaim → TaskLaneConf → ℕ → ℕ → Exec Turn LanePoll
  unfolding claim_owned_inner
  claim_owned_state runner claim lane duration now turn =
      elim (lookup claim.lane turn.state.lane_locks) [
        | none ↦ (
          err (invalid_config ("task lane lock '" ++ claim.lane ++ "' is not initialized")),
          turn,
        )
        | some before ↦
            let s = turn.state in
            let out : Turn = record turn {
              state = record s { lane_locks = remove claim.lane s.lane_locks };
            } in
            let (r, (turn', owner)) =
              claim_owned_inner runner claim lane duration now (out, before) in
            let s' = turn'.state in
            (
              and_then r λ poll. ok (with_takeover claim before poll),
              record turn' {
                state = record s' { lane_locks = insert claim.lane owner s'.lane_locks };
              },
            )
      ]

  -- A lane without a lock.
  unfoldable pub claim_open_lane :
      ℕ → LaneClaim → TaskLaneConf → TaskStoreConf → ℕ → Exec Turn LanePoll
  claim_open_lane runner claim lane conf now = do
    let bounded = bounded_claim claim lane.claim_batch_size
    policy ← (λ turn. (configured_retry turn.state bounded.lane, turn))
    fail_exhausted x bounded.lane bounded.limit now conf policy
    candidates ← count_work bounded.lane now
    rate ← (λ turn. (configured_rate turn.state bounded.lane, turn))
    permits ← on_state (reserve_permits x bounded.lane candidates rate now)
    claim_lane_state runner (reservation bounded candidates permits) now

  abbrev pub claim_one : ℕ → LaneClaim → TaskStoreConf → ℕ → ℕ → Exec Turn LanePoll
  claim_one runner claim conf duration now = elim (find_lane conf claim.lane) [
    | none ↦ raise (unknown_lane claim.lane)
    | some lane ↦
        if is_some lane.lane_lock
        then claim_owned_state runner claim lane duration now
        else claim_open_lane runner claim lane conf now
  ]

  unfoldable pub claim_lanes :
      ℕ → List LaneClaim → TaskStoreConf → ℕ → ℕ → Exec Turn (List LanePoll)
  unfolding claim_owned_state claim_open_lane
  claim_lanes runner [] conf duration now = pure []
  claim_lanes runner (claim ∷ claims) conf duration now = do
    poll ← claim_one runner claim conf duration now
    polls ← claim_lanes runner claims conf duration now
    pure (poll ∷ polls)

  unfoldable pub claim_tasks_state : ℕ → List LaneClaim → ℕ → ℕ → Exec Turn TaskPoll
  unfolding claim_lanes
  claim_tasks_state runner claims duration now = do
    conf ← require_conf
    lanes ← claim_lanes runner claims conf duration now
    pure (record { wake_lanes = []; lanes = lanes })
