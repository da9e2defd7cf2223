-- ===== src/Tasks/Store/Finish.antt =====
-- The infallible end of a turn: joins, deliveries and wakes in
-- vyuh/src/tasks/store/memory/workflow.rs.
pub mod Aggregate
use mathlib.Core.Option
use Prim.Native.String.{◌++◌ as text_append}
use vyuh.Prelude.{
  ℕ, zero, suc, ◌-◌, ◌+◌, ltb, leb, ◌==◌, ◌=$◌, ◌&&◌, ◌||◌, not, if◌then◌else◌, String, Bool, true,
  false, Option, none, some, List, [], ◌∷◌, ◌++◌, is_some, is_some_and, unwrap_or, is_empty, any,
  find, filter, map, update_first, lookup, insert, remove, contains_key, number_key, text_key,
  HashMap,
}
use vyuh.Prelude.Int.{ℤ, pos, negsuc, eqb_ℤ}
use vyuh.Tasks.Externals.{Externals}
use vyuh.Tasks.Types.{TaskStatus, TaskRecord, TaskStoreConf, same_status, find_lane}
use vyuh.Tasks.Result.{failure}
use vyuh.Tasks.Store.State.{
  MemoryState, TaskWait, TaskPoll, LanePoll, MemoryLaneLock, LaneOwnerPhase, same_phase,
}
use vyuh.Tasks.Store.Queries.{is_due, is_terminal}
use vyuh.Tasks.Store.Commit.{append_result, appended, refused}
use vyuh.Tasks.Store.Claim.{Delivery}
use vyuh.Tasks.Store.LaneOwner.{memory_activate, memory_owner_poll}

abbrev pub has_id : ℕ → TaskRecord → Bool
has_id id t = t.id == id

module _ (x : Externals) where
  abbrev member_result : List TaskRecord → ℕ → Option String
  member_result tasks id = Option.bind (find (has_id id) tasks) λ t. t.last_result

  abbrev member_terminal : List TaskRecord → ℕ → Bool
  member_terminal tasks id = is_some_and (find (has_id id) tasks) λ t. is_terminal t.status

  -- The loop of `aggregate`: the buffer with every member's result, or the outer failure.
  append_members : List TaskRecord → ℕ → List ℕ → String → String
  append_members tasks parent [] buffer = text_append buffer "]}"
  append_members tasks parent (id ∷ ids) buffer =
      elim (append_result x buffer (member_result tasks id) (member_terminal tasks id)) [
        | refused message ↦ failure x parent message
        | appended buffer' ↦ append_members tasks parent ids buffer'
      ]

  pub aggregate : List TaskRecord → ℕ → TaskWait → String
  unfolding append_members
  aggregate tasks parent wait =
      if not (eqb_ℤ wait.remaining_completions (pos 0))
      then failure x parent "All claimed before completion"
      else append_members tasks parent wait.children "{\"Ok\":["

  -- One snapshot of the poll: a joined parent gets its input before it is handed out.
  abbrev materialize_one : MemoryState → TaskRecord → MemoryState × TaskRecord
  materialize_one s snapshot = elim (lookup snapshot.id s.waits) [
    | none ↦ (s, snapshot)
    | some wait ↦
        let waits = remove snapshot.id s.waits in
        let given : TaskRecord → TaskRecord =
          λ t. record t { resume_input = some (aggregate s.tasks snapshot.id wait) } in
        (
          record s { tasks = update_first (has_id snapshot.id) given s.tasks; waits = waits },
          unwrap_or (Option.map given (find (has_id snapshot.id) s.tasks)) snapshot,
        )
  ]

  unfoldable pub materialize_tasks : MemoryState → List TaskRecord → MemoryState × List TaskRecord
  unfolding aggregate
  materialize_tasks s [] = (s, [])
  materialize_tasks s (t ∷ ts) =
      let (s', t') = materialize_one s t in
      let (s'', ts') = materialize_tasks s' ts in (s'', t' ∷ ts')

  unfoldable pub materialize : MemoryState → List LanePoll → MemoryState × List LanePoll
  unfolding materialize_tasks
  materialize s [] = (s, [])
  materialize s (lane ∷ lanes) =
      let (s', tasks) = materialize_tasks s lane.tasks in
      let (s'', lanes') = materialize s' lanes in (s'', record lane { tasks = tasks } ∷ lanes')

-- A group without members is joined at once; the wake names the parent's lane.
abbrev install_one : MemoryState → ℕ → TaskWait → ℕ → MemoryState × List String
install_one s id wait now =
    let parent = if is_empty wait.children then find (has_id id) s.tasks else none in
    let waits = insert id wait s.waits in
    elim parent [
      | none ↦ (record s { waits = waits }, [])
      | some t ↦
          let ready : TaskRecord → TaskRecord =
            λ u. record u { status = TaskStatus.pending; ready_at = some now } in
          (
            record s { tasks = update_first (has_id id) ready s.tasks; waits = waits },
            (elim (Option.bind s.conf λ conf. find_lane conf t.lane) [
              | none ↦ []
              | some lane ↦ lane.lane ∷ []
            ]),
          )
    ]

unfoldable pub install : MemoryState → List (ℕ × TaskWait) → ℕ → MemoryState × List String
install s [] now = (s, [])
install s ((id, wait) ∷ waits) now =
    let (s', wake) = install_one s id wait now in
    let (s'', wakes) = install s' waits now in (s'', wake ++ wakes)

unfoldable pub clear_terminal : MemoryState → List TaskRecord → MemoryState
clear_terminal s [] = s
clear_terminal s (t ∷ ts) =
    let done = any (λ u. has_id t.id u && is_terminal u.status) s.tasks in
    clear_terminal
      (if contains_key t.id s.waits && done then record s { waits = remove t.id s.waits } else s) ts

-- An idle hook that this turn proposed is withdrawn where the end of the turn made work ready.
abbrev reconcile_owner :
    MemoryState → LanePoll → HashMap String LaneOwnerPhase → MemoryLaneLock → MemoryState × LanePoll
reconcile_owner s lane phases owner =
    let kept : MemoryLaneLock = record owner { empty_since = none } in
    let was_idling =
      is_some_and (lookup lane.lane phases) (λ p. same_phase p LaneOwnerPhase.idling) in
    let withdrawn = memory_activate kept in
    if same_phase owner.phase LaneOwnerPhase.idling && not was_idling
    then (
      record s { lane_locks = insert lane.lane withdrawn s.lane_locks },
      record lane { owner = some (memory_owner_poll withdrawn none) },
    )
    else (record s { lane_locks = insert lane.lane kept s.lane_locks }, lane)

abbrev reconcile_lane :
    MemoryState
    → LanePoll
    → List String
    → HashMap String LaneOwnerPhase
    → ℕ
    → MemoryState × LanePoll
reconcile_lane s lane wakes phases now =
    let woken_lane : LanePoll = record lane { next_wake_in = some 0 } in
    let reconciled : MemoryState × LanePoll = elim (lookup lane.lane s.lane_locks) [
      | none ↦ (s, woken_lane)
      | some owner ↦ reconcile_owner s woken_lane phases owner
    ] in
    if not (any (λ w. w =$ lane.lane) wakes)
    then (s, lane)
    else if not (any (λ t. t.lane =$ lane.lane && is_due t now) s.tasks)
    then (s, woken_lane)
    else reconciled

unfoldable pub reconcile_poll :
    MemoryState
    → List LanePoll
    → List String
    → HashMap String LaneOwnerPhase
    → ℕ
    → MemoryState × List LanePoll
reconcile_poll s [] wakes phases now = (s, [])
reconcile_poll s (lane ∷ lanes) wakes phases now =
    let (s', lane') = reconcile_lane s lane wakes phases now in
    let (s'', lanes') = reconcile_poll s' lanes wakes phases now in (s'', lane' ∷ lanes')
