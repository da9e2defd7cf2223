-- ===== src/Tasks/Store/Schedule.antt =====
-- Scheduled submissions, and submissions that a runner takes at once:
-- vyuh/src/tasks/store/memory/store.rs and `store_admitted_impl` of workflow.rs. Each action is what
-- one operation does while it holds the mutex.
pub mod Once
use mathlib.Core.Option
use vyuh.Prelude.{
  ℕ, ◌-◌, max, leb, ltb, ◌&&◌, not, if◌then◌else◌, String, Bool, true, false, Option, none, some,
  List, [], ◌∷◌, ◌++◌, length, is_some_and, lookup, insert, contains_key, number_key, text_key,
  Result, ok, err, and_then, task_execution_error, Exec,
}
use vyuh.Tasks.Externals.{Externals}
use vyuh.Tasks.Types.{TaskRecord, TaskWrite, TaskReceipt, TaskStoreConf}
use vyuh.Tasks.Store.State.{MemoryState}
use vyuh.Tasks.Store.Lifecycle.{admit}
use vyuh.Tasks.Store.Commit.{direct}
use vyuh.Tasks.Store.Submit.{validate_write_lanes, stage_write, stage_writes}

pub record ScheduledTaskWrite : Type 0 where
  pub name : String
  pub occurrence : ℕ
  pub write : TaskWrite

abbrev is_past : ScheduledTaskWrite → MemoryState → Bool
is_past scheduled s =
    is_some_and (lookup scheduled.name s.schedules) λ last. leb scheduled.occurrence last

-- The write of a schedule, and the cursor that it moves on to.
abbrev advanced : ScheduledTaskWrite → ℕ → List TaskRecord → MemoryState → MemoryState
advanced scheduled now staged s = record s {
  tasks = s.tasks ++ staged;
  schedules = insert scheduled.name (max now scheduled.occurrence) s.schedules;
}

unfoldable pub store_scheduled :
    Externals → ScheduledTaskWrite → ℕ → Exec MemoryState (Option TaskReceipt)
store_scheduled x scheduled now s =
    if is_past scheduled s
    then (ok none, s)
    else elim (and_then (validate_write_lanes s (scheduled.write ∷ []))
        λ _. stage_write x s.tasks [] scheduled.write now) [
          | err e ↦ (err e, s)
          | ok (receipt, staged) ↦ (ok (some receipt), advanced scheduled now staged s)
        ]

-- The loop over the staged rows: those that it admits are taken up to the limit.
abbrev admit_staged :
    TaskStoreConf → ℕ → ℕ → ℕ → List TaskRecord → Result (List TaskRecord × List TaskRecord)
admit_staged conf node limit now [] = ok ([], [])
admit_staged conf node limit now (t ∷ ts) =
    let after_taking = admit_staged conf node (limit - 1) now ts in
    let after_leaving = admit_staged conf node limit now ts in
    let (admitted, t') = admit node now t in
    if ltb 0 limit && direct t conf now
    then (and_then admitted λ _. and_then after_taking λ (rows, taken). ok (t' ∷ rows, t' ∷ taken))
    else (and_then after_leaving λ (rows, taken). ok (t ∷ rows, taken))

abbrev pub admit_rows :
    Option TaskStoreConf → ℕ → ℕ → ℕ → List TaskRecord → Result (List TaskRecord × List TaskRecord)
admit_rows none node limit now staged = ok (staged, [])
admit_rows (some conf) node limit now staged = admit_staged conf node limit now staged

-- `store_admitted_impl`: nothing is stored unless every write and every admission succeeds.
unfoldable pub store_admitted :
    Externals
    → List TaskWrite
    → ℕ
    → ℕ
    → ℕ
    → MemoryState
    → Result ((List TaskReceipt × List TaskRecord) × MemoryState)
store_admitted x writes node limit now s =
    if not (contains_key node s.nodes)
    then err (task_execution_error "task node registration missing")
    else and_then (validate_write_lanes s writes) λ _.
      and_then (stage_writes x s.tasks [] writes now) λ (receipts, staged).
        and_then (admit_rows s.conf node limit now staged)
          λ (rows, taken). ok ((receipts, taken), record s { tasks = s.tasks ++ rows })
