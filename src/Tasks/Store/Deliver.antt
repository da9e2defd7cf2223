-- ===== src/Tasks/Store/Deliver.antt =====
-- Deliveries to waiting parents and the wakes of `finalize_workflow` in
-- vyuh/src/tasks/store/memory/workflow.rs.
pub mod Grouping
use mathlib.Core.Option
use Prim.Native.String.{◌++◌ as text_append}
use vyuh.Prelude.{
  ℕ, zero, suc, ◌-◌, ◌+◌, ltb, leb, ◌==◌, ◌=$◌, ◌&&◌, ◌||◌, not, if◌then◌else◌, String, Bool, true,
  false, Option, none, some, List, [], ◌∷◌, ◌++◌, is_some, is_some_and, unwrap_or, is_empty, any,
  find, filter, map, update_first, lookup, insert, remove, contains_key, number_key, text_key,
  HashMap,
}
use vyuh.Prelude.Int.{ℤ, pos, negsuc, eqb_ℤ, wrapping_suc_i32, checked_sub_i32}
use vyuh.Tasks.Externals.{Externals}
use vyuh.Tasks.Types.{TaskStatus, TaskRecord, TaskStoreConf, same_status, find_lane}
use vyuh.Tasks.Result.{failure}
use vyuh.Tasks.Store.State.{
  MemoryState, TaskWait, TaskPoll, LanePoll, MemoryLaneLock, LaneOwnerPhase, same_phase,
}
use vyuh.Tasks.Store.Queries.{is_due, is_terminal}
use vyuh.Tasks.Store.Commit.{append_result, appended, refused}
use vyuh.Tasks.Store.Claim.{Delivery}
use vyuh.Tasks.Store.LaneOwner.{memory_activate, memory_owner_poll}

abbrev pub Grouped : Type 0
Grouped = List (ℕ × ℤ × String)

-- The deliveries by parent in the order of their identities: how many, and the first result.
abbrev pub add_delivery : ℕ → String → Grouped → Grouped
add_delivery id result [] = (id, pos 1, result) ∷ []
add_delivery id result ((k, count, first) ∷ rest) =
    let later = add_delivery id result rest in
    if id == k
    then (k, wrapping_suc_i32 count, first) ∷ rest
    else if ltb id k
    then (id, pos 1, result) ∷ (k, count, first) ∷ rest
    else (k, count, first) ∷ later

unfoldable pub group_deliveries : Grouped → List Delivery → Grouped
group_deliveries grouped [] = grouped
group_deliveries grouped ((id, result) ∷ ds) = group_deliveries (add_delivery id result grouped) ds

abbrev awaits : ℕ → TaskRecord → Bool
awaits id t = t.id == id && not t.cancelled && same_status t.status TaskStatus.suspended

abbrev wake_parent : Option String → ℕ → TaskRecord → TaskRecord
wake_parent resume now t = record t {
  resume_input = resume;
  status = TaskStatus.pending;
  ready_at = some now;
  updated_at = now;
}

module _ (x : Externals) where
  -- The join of one parent after `count` completions: still waiting, ready, or broken.
  abbrev join : MemoryState → ℕ → ℤ → TaskWait → TaskRecord → ℕ → MemoryState × List String
  join s id count wait t now =
      let broken : MemoryState = record s {
        tasks =
            update_first (awaits id)
              (wake_parent (some (failure x id "All completion counter underflow")) now) s.tasks;
        waits = remove id s.waits;
      } in
      elim (checked_sub_i32 wait.remaining_completions count) [
        | none ↦ (broken, t.lane ∷ [])
        | some (negsuc n) ↦ (broken, t.lane ∷ [])
        | some (pos n) ↦
            let left : TaskWait = record wait { remaining_completions = pos n } in
            let counted : MemoryState = record s { waits = insert id left s.waits } in
            let ready : MemoryState = record counted {
              tasks = update_first (awaits id) (wake_parent t.resume_input now) s.tasks;
            } in
            if ltb 0 n then (counted, []) else (ready, t.lane ∷ [])
      ]

  -- The delivery to one parent, and the lane to wake.
  unfoldable pub deliver : MemoryState → ℕ → ℤ → String → ℕ → MemoryState × List String
  deliver s id count result now = elim (find (awaits id) s.tasks) [
    | none ↦ (s, [])
    | some t ↦ elim (lookup id s.waits) [
      | some wait ↦ join s id count wait t now
      | none ↦ (
        record s { tasks = update_first (awaits id) (wake_parent (some result) now) s.tasks },
        t.lane ∷ [],
      )
    ]
  ]

  unfoldable pub deliver_all : MemoryState → Grouped → ℕ → MemoryState × List String
  unfolding deliver
  deliver_all s [] now = (s, [])
  deliver_all s ((id, count, result) ∷ rest) now =
      let (s', names) = deliver s id count result now in
      let (s'', more) = deliver_all s' rest now in (s'', names ++ more)

  -- The configured lanes among the names, in the order of the configuration.
  abbrev woken : Option TaskStoreConf → List String → List String
  woken conf names = elim conf [
    | none ↦ []
    | some c ↦ filter (λ lane. any (λ n. n =$ lane) names) (map (λ lane. lane.lane) c.lanes)
  ]

  unfoldable pub finalize_workflow :
      MemoryState → List TaskRecord → List Delivery → ℕ → MemoryState × List String
  unfolding deliver_all group_deliveries
  finalize_workflow s children deliveries now =
      let extended : MemoryState = record s { tasks = s.tasks ++ children } in
      let (s', names) = deliver_all extended (group_deliveries [] deliveries) now in
      (s', woken s.conf (map (λ t. t.lane) children ++ names))
