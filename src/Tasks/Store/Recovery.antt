-- ===== src/Tasks/Store/Recovery.antt =====
-- Recovery after a claim whose outcome is unknown: vyuh/src/tasks/store/memory/recovery.rs, with
-- `merge_wakes` and `recovery_token` of store/contract.rs.
pub mod Current
use mathlib.Core.Option
use vyuh.Prelude.{
  ℕ, zero, ◌+◌, ◌==◌, ◌=$◌, ◌&&◌, ◌||◌, not, if◌then◌else◌, String, Bool, true, false, Option, none,
  some, List, [], ◌∷◌, ◌++◌, map, any, find, find_from, set, is_some, is_none, is_some_and, eq_id,
  eq_text, lookup, insert, text_key, Result, ok, err, and_then, Exec, unknown_lane,
}
use vyuh.Prelude.Int.{eqb_ℤ}
use vyuh.Tasks.Externals.{Externals}
use vyuh.Tasks.Types.{TaskRecord, TaskStatus, TaskCommit, cancel, same_status}
use vyuh.Tasks.Store.State.{
  MemoryState, MemoryLaneLock, LaneClaim, LanePoll, TaskPoll, LaneOwnerPoll, LaneOwnerPhase,
  LaneHookAction,
}
use vyuh.Tasks.Store.Queries.{checked_deadline}
use vyuh.Tasks.Store.LaneOwner.{memory_owner_live, memory_action, request_token}
use vyuh.Tasks.Store.Workflow.{atomic_operation}

-- The names that are not there yet are added at the end.
unfoldable pub merge_wakes : List String → List String → List String
merge_wakes target [] = target
merge_wakes target (lane ∷ lanes) =
    merge_wakes (if any (λ n. n =$ lane) target then target else target ++ lane ∷ []) lanes

-- The token of the lane's row is the one that the request or its prepared answer names.
unfoldable pub recovery_token : LaneClaim → TaskPoll → Option String → Bool
recovery_token claim prepared none = false
recovery_token claim prepared (some token) =
    eq_text (request_token claim) (some token)
    || any
        (λ lane.
          lane.lane =$ claim.lane
          && eq_text (Option.bind lane.owner λ owner. owner.token) (some token))
        prepared.lanes

abbrev is_on : ℕ → String → TaskRecord → Bool
is_on node lane t =
    eq_id t.node_id (some node) && t.lane =$ lane && same_status t.status TaskStatus.running

unfoldable pub release_lane : ℕ → String → ℕ → MemoryState → MemoryState
release_lane node lane now s = record s {
  tasks =
      map (λ t. if is_on node lane t then record t { node_id = none; updated_at = now } else t)
        s.tasks;
}

-- What a runner is told of a lock that it holds, and of one that it does not.
abbrev owner_poll : Bool → MemoryLaneLock → LaneOwnerPoll
owner_poll live row = record {
  token = if live then row.owner_token else none;
  generation = row.generation;
  phase = row.phase;
  action = if live then memory_action row.phase else none;
  takeover = false;
}

module _ (x : Externals) where
  abbrev is_live : ℕ → LaneClaim → TaskPoll → ℕ → MemoryLaneLock → Bool
  is_live node claim prepared now row =
      recovery_token claim prepared row.owner_token
      && eq_text row.owner_id (some (x.uuid_text node))
      && memory_owner_live row now

  -- The lease of a lock that is still held is renewed.
  abbrev pub renewed : Bool → ℕ → ℕ → MemoryLaneLock → Result MemoryLaneLock
  renewed false lease now row = ok row
  renewed true lease now row =
      and_then (checked_deadline x now lease)
        λ deadline. ok (record row { leased_until = deadline })

  unfoldable pub recover_owner :
      ℕ → String → Option LaneClaim → TaskPoll → ℕ → ℕ → Exec MemoryState (Option LaneOwnerPoll)
  recover_owner node lane none prepared now lease s = (ok none, s)
  recover_owner node lane (some claim) prepared now lease s =
      if is_none claim.owner then (ok none, s) else elim (lookup lane s.lane_locks) [
        | none ↦ (err (unknown_lane lane), s)
        | some row ↦ elim (renewed (is_live node claim prepared now row) lease now row) [
          | err e ↦ (err e, s)
          | ok row' ↦ (
            ok (some (owner_poll (is_live node claim prepared now row) row')),
            record s { lane_locks = insert lane row' s.lane_locks },
          )
        ]
      ]

-- A lane that the runner has lost.
abbrev is_lost : Option LaneOwnerPoll → Bool
is_lost owner = is_some_and owner λ o. is_none o.token

abbrev is_current : ℕ → TaskRecord → TaskRecord → Bool
is_current node expected t =
    t.id == expected.id
    && eqb_ℤ t.attempts expected.attempts
    && eq_id t.node_id (some node)
    && same_status t.status TaskStatus.running

-- The stored rows, the cancellations that are due, and the snapshots that the runner keeps.
pub record Recovered : Type 0 where
  pub rows : List TaskRecord
  pub cancelled : List TaskCommit
  pub tasks : List TaskRecord

abbrev recover_task : ℕ → Bool → ℕ → TaskRecord → Recovered → Recovered
recover_task node lost now expected r = elim (find_from 0 (is_current node expected) r.rows) [
  | none ↦ r
  | some (i, t) ↦
      if lost
      then record r { rows = set r.rows i (record t { node_id = none; updated_at = now }) }
      else if t.cancelled
      then record r { cancelled = r.cancelled ++ cancel t.id ∷ [] }
      else record r { tasks = r.tasks ++ t ∷ [] }
]

unfoldable pub recover_tasks : ℕ → Bool → ℕ → List TaskRecord → Recovered → Recovered
recover_tasks node lost now [] r = r
recover_tasks node lost now (expected ∷ rest) r =
    recover_tasks node lost now rest (recover_task node lost now expected r)

module _ (x : Externals) where
  abbrev recovered_lane : String → List TaskRecord → Option LaneOwnerPoll → LanePoll
  recovered_lane lane tasks owner = record {
    lane = lane;
    tasks = tasks;
    reclaimed = 0;
    saturated = false;
    next_wake_in = some 0;
    owner = owner;
  }

  -- The loop over the prepared lanes, on the staged state.
  unfoldable pub recover_lanes :
      ℕ
      → List LaneClaim
      → TaskPoll
      → ℕ
      → ℕ
      → List LanePoll
      → List TaskCommit
      → MemoryState
      → Result (List LanePoll × List TaskCommit × MemoryState)
  unfolding recover_owner release_lane recover_tasks
  recover_lanes node claims prepared now lease [] cancelled s = ok ([], cancelled, s)
  recover_lanes node claims prepared now lease (lane ∷ lanes) cancelled s =
      let claim = find (λ c. c.lane =$ lane.lane) claims in
      let (r, s1) = recover_owner x node lane.lane claim prepared now lease s in
      and_then r λ owner.
        let s2 = if is_lost owner then release_lane node lane.lane now s1 else s1 in
        let found =
          recover_tasks node (is_lost owner) now lane.tasks
            (record { rows = s2.tasks; cancelled = cancelled; tasks = [] }) in
        let s3 : MemoryState = record s2 { tasks = found.rows } in
        and_then (recover_lanes node claims prepared now lease lanes found.cancelled s3)
          λ (polls, all_cancelled, last).
            ok (recovered_lane lane.lane found.tasks owner ∷ polls, all_cancelled, last)

  -- The work is done on a copy, which takes the place of the state at the end.
  unfoldable pub recover_poll :
      ℕ → ℕ → List LaneClaim → TaskPoll → ℕ → ℕ → ℕ → MemoryState → Result (TaskPoll × MemoryState)
  unfolding recover_lanes merge_wakes
  recover_poll uuids node claims prepared batch lease now s =
      and_then (recover_lanes node claims prepared now lease prepared.lanes [] s)
        λ (lanes, cancelled, staged).
          let (r, done) = atomic_operation x uuids none [] cancelled batch lease now staged in
          and_then r λ (poll, result). ok (
            record {
              wake_lanes = merge_wakes prepared.wake_lanes result.wake_lanes;
              lanes = lanes;
            },
            done,
          )
