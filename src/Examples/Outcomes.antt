-- ===== src/Examples/Outcomes.antt =====
-- Claims, outcomes and the results of tasks at work.
use Prim.Native.String.{len}
use vyuh.Prelude.{String, ℕ, List, ◌≡◌, ◌≤◌, none, some, false, [], ◌∷◌, refl, arith}
use vyuh.Prelude.Int.{pos}
use vyuh.Tasks.Types.{TaskOutcome, TaskWrite, queued}
use vyuh.Tasks.Result.{result_limit, failure}
use vyuh.Tasks.Result.Failure.{Enveloped, failure-Enveloped}
use vyuh.Tasks.Store.Queries.{checked_deadline, chrono_duration}
use vyuh.Tasks.Store.Lifecycle.{apply_outcome, transition, claim_task, complete, sleep, succeed}
use vyuh.Tasks.Store.Lifecycle.WellFormed.{
  IsCounted, IsWellFormed, apply_outcome-IsWellFormed, claim_task-IsWellFormed, claimed,
}
use vyuh.Tasks.Store.Lifecycle.Effects.{Settled, apply_outcome-Settled}
use vyuh.Tasks.Store.Submit.{
  store_tasks, stage_writes, stage_write, matching_key, validate_write_lanes, require_lane,
  require_handler,
}
use vyuh.Tasks.Store.Submit.Unique.{Pairwise, Apart, store_tasks-Apart}
use vyuh.Tasks.Store.Deliver.{group_deliveries}
use vyuh.Tasks.Store.Deliver.Grouping.{Ascending, entry, group_of, group_deliveries-Grouped}
use vyuh.Tasks.Store.Finish.{aggregate}
use vyuh.Tasks.Store.Finish.Aggregate.{aggregate-le}
use vyuh.Examples.Data.{world, world_text, patient, waiting, running_on_7, store}

running-IsCounted : IsCounted (running_on_7 1)
running-IsCounted = record { counted = refl; stepped = refl; steps = omega arith }

apply_outcome-IsWellFormed_example :
    IsWellFormed (apply_outcome world TaskOutcome.complete patient 200 (running_on_7 1)).1
unfolding apply_outcome transition succeed complete
apply_outcome-IsWellFormed_example =
    apply_outcome-IsWellFormed world patient 200 TaskOutcome.complete (running_on_7 1)
      running-IsCounted refl refl refl

apply_outcome-Settled_example :
    Settled world
      (TaskOutcome.sleep "later" 60)
      patient
      200
      (running_on_7 1)
      (apply_outcome world (TaskOutcome.sleep "later" 60) patient 200 (running_on_7 1)).1
unfolding apply_outcome transition sleep checked_deadline chrono_duration
apply_outcome-Settled_example =
    apply_outcome-Settled world patient 200 (TaskOutcome.sleep "later" 60) (running_on_7 1) refl
      refl

claim_task-IsWellFormed_example : IsWellFormed (claimed (waiting 2) 7 200 (pos 1) (pos 1))
unfolding claim_task
claim_task-IsWellFormed_example =
    claim_task-IsWellFormed 7 200 (waiting 2)
      (record {
        owned = tt;
        timed = refl;
        stopped = tt;
        attempted = record { counted = refl; stepped = refl; steps = omega arith };
      })
      refl refl refl

failure-Enveloped_example : Enveloped world world_text 1 "boom" (failure world 1 "boom")
failure-Enveloped_example = failure-Enveloped world world_text 1 "boom"

aggregate-le_example :
    len (aggregate world [] 1 (record { children = 5 ∷ []; remaining_completions = pos 0 }))
    ≤ result_limit
aggregate-le_example =
    aggregate-le world world_text [] 1 (record { children = 5 ∷ []; remaining_completions = pos 0 })

abbrev new_write : TaskWrite
new_write = record {
  task = record (waiting 3) { idempotency_key = some "k" };
  ignore_conflicts = false;
  initial_delay = none;
}

stored-Apart : Pairwise (Apart 200) store.tasks
stored-Apart = ((record { ids = refl; keys = λ key e. refl }, tt), (tt, tt))

store_tasks-Apart_example : Pairwise (Apart 200) (
    running_on_7 1
    ∷ waiting 2
    ∷ record (waiting 3) {
      idempotency_key = some "k";
      created_at = 200;
      updated_at = 200;
      ready_at = some 200;
    }
    ∷ [])
unfolding store_tasks stage_writes stage_write matching_key validate_write_lanes require_lane
    require_handler
store_tasks-Apart_example =
    store_tasks-Apart world 200 (new_write ∷ []) store
      (record store {
        tasks =
            running_on_7 1
            ∷ waiting 2
            ∷ record (waiting 3) {
              idempotency_key = some "k";
              created_at = 200;
              updated_at = 200;
              ready_at = some 200;
            }
            ∷ [];
      })
      (queued 3 ∷ []) stored-Apart refl

-- Two deliveries for one parent and, between them, one for a parent with a smaller id.
abbrev delivered : List (ℕ × String)
delivered = (5, "a") ∷ (2, "b") ∷ (5, "c") ∷ []

group_deliveries_run : group_deliveries [] delivered ≡ (2, pos 1, "b") ∷ (5, pos 2, "a") ∷ []
unfolding group_deliveries
group_deliveries_run = refl

group_deliveries-Grouped_example :
    Ascending (group_deliveries [] delivered)
    × (entry 5 (group_deliveries [] delivered) ≡ group_of 5 delivered)
group_deliveries-Grouped_example = group_deliveries-Grouped 5 delivered (omega arith)
