-- ===== src/Tasks/Store/Nodes.antt =====
-- Nodes and what they hold: registration, retirement, the return of claims, the move of a lane and
-- the resumption of a task, in vyuh/src/tasks/store/memory/store.rs and queries.rs. Each action is
-- what one operation does while it holds the mutex.
pub mod Held
use mathlib.Core.Option
use vyuh.Prelude.{
  ℕ, ◌+◌, ◌==◌, ◌=$◌, ◌&&◌, ◌||◌, not, leb, if◌then◌else◌, String, Bool, true, false, Option, none,
  some, List, [], ◌∷◌, map, filter, any, length, find, eq_id, is_some, is_some_and, update_first,
  HashMap, number_key, or_insert, lookup, contains_key, Result, ok, err, Exec, ok_or,
  invalid_options, lane_busy,
}
use vyuh.Tasks.Externals.{Externals}
use vyuh.Tasks.Types.{TaskRecord, TaskStatus, same_status}
use vyuh.Tasks.Result.{validate_resume}
use vyuh.Tasks.Store.State.{MemoryState}
use vyuh.Tasks.Store.Queries.{is_reassignable}
use vyuh.Tasks.Store.Submit.{require_lane}

abbrev pub Nodes : Type 0
Nodes = HashMap ℕ (ℕ × ℕ)

unfoldable pub register_node : ℕ → ℕ → MemoryState → MemoryState
register_node node now s = record s { nodes = or_insert node (now, now) s.nodes }

-- `nodes.get_mut(node)` followed by the write of the heartbeat.
abbrev beat : ℕ → ℕ → Nodes → Nodes
beat node now =
    map λ (id, (since, last)). if id == node then (id, (since, now)) else (id, (since, last))

abbrev pub stays : ℕ → ℕ → ℕ × (ℕ × ℕ) → Bool
stays node cutoff (id, (since, last)) = id == node || leb cutoff last

abbrev retired : ℕ → ℕ → Nodes → ℕ → Bool
retired node cutoff nodes id = any (λ n. n.0 == id && not (stays node cutoff n)) nodes

abbrev disown : ℕ → ℕ → Nodes → TaskRecord → TaskRecord
disown node cutoff nodes t =
    if is_some_and t.node_id (retired node cutoff nodes) then record t { node_id = none } else t

retire_nodes : ℕ → ℕ → MemoryState → MemoryState
retire_nodes node cutoff s = record s {
  nodes = filter (stays node cutoff) s.nodes;
  tasks = map (disown node cutoff s.nodes) s.tasks;
}

-- The oldest heartbeat of a node that stays registered.
abbrev cutoff_of : Externals → ℕ → ℕ → Result ℕ
cutoff_of x now stale_after =
    ok_or (Option.bind (x.from_std stale_after) (x.checked_sub_signed now))
      (invalid_options "node retirement duration exceeds clock range")

pub heartbeat : Externals → ℕ → ℕ → ℕ → Exec MemoryState Bool
unfolding retire_nodes
heartbeat x node stale_after now s = elim (cutoff_of x now stale_after) [
  | err e ↦ (err e, s)
  | ok cutoff ↦
      if contains_key node s.nodes
      then (ok true, retire_nodes node cutoff (record s { nodes = beat node now s.nodes }))
      else (ok false, s)
]

-- The rows that a return of claims skips.
abbrev is_skipped : Option ℕ → TaskRecord → Bool
is_skipped node t =
    not (
      same_status t.status TaskStatus.running
      || is_some t.node_id
        && (same_status t.status TaskStatus.pending || same_status t.status TaskStatus.suspended))
    || is_some_and node (λ n. not (eq_id t.node_id (some n)))

abbrev return_row : ℕ → TaskRecord → TaskRecord
return_row now t =
    if same_status t.status TaskStatus.running
    then record t {
      status = TaskStatus.pending;
      ready_at = some now;
      node_id = none;
      updated_at = now;
    }
    else record t { node_id = none; updated_at = now }

-- The returned rows, and how many they are.
pub return_claims : Option ℕ → ℕ → MemoryState → ℕ × MemoryState
return_claims node now s = (
  length (filter (λ t. not (is_skipped node t)) s.tasks),
  record s { tasks = map (λ t. if is_skipped node t then t else return_row now t) s.tasks },
)

abbrev is_moved : String → TaskRecord → Bool
is_moved source t = t.lane =$ source && is_reassignable t.status

-- One reading of the clock stands for those of the loop.
unfoldable pub reassign_lane : String → String → ℕ → Exec MemoryState ℕ
reassign_lane source target now s = elim (require_lane s target) [
  | err e ↦ (err e, s)
  | ok _ ↦
      if any (λ t. t.lane =$ source && same_status t.status TaskStatus.running) s.tasks
      then (err (lane_busy source), s)
      else (
        ok (length (filter (is_moved source) s.tasks)),
        record s {
          tasks =
              map
                (λ t.
                  if is_moved source t
                  then record t { lane = target; node_id = none; updated_at = now }
                  else t)
                s.tasks;
        },
      )
]

abbrev resumed : String → ℕ → TaskRecord → TaskRecord
resumed input now t = record t {
  status = TaskStatus.pending;
  resume_input = some input;
  ready_at = some now;
  updated_at = now;
}

unfoldable pub resume : Externals → ℕ → String → ℕ → Exec MemoryState Bool
resume x id input now s = elim (validate_resume x input) [
  | err e ↦ (err e, s)
  | ok _ ↦ elim (find (λ t. t.id == id) s.tasks) [
    | none ↦ (ok false, s)
    | some t ↦
        if t.cancelled || not (same_status t.status TaskStatus.suspended) then (ok false, s) else (
          ok true,
          record s { tasks = update_first (λ u. u.id == id) (resumed input now) s.tasks },
        )
  ]
]
