-- ===== src/Examples/Operations.antt =====
-- Heartbeats, returned claims, schedules and initialization at work.
use vyuh.Prelude.{ℕ, ◌≡◌, none, some, false, [], ◌∷◌, refl, arith, ok, All}
use vyuh.Prelude.Int.{pos}
use vyuh.Tasks.Types.{TaskRecord, queued}
use vyuh.Tasks.Rate.{full_bucket}
use vyuh.Tasks.Store.State.{MemoryState}
use vyuh.Tasks.Store.Queries.{reject_orphaned_tasks, is_active}
use vyuh.Tasks.Store.Lifecycle.WellFormed.{IsWellFormed}
use vyuh.Tasks.Store.Submit.{
  stage_write, matching_key, validate_write_lanes, require_lane, require_handler,
}
use vyuh.Tasks.Store.Deliver.{finalize_workflow, deliver_all, group_deliveries}
use vyuh.Tasks.Store.Nodes.{heartbeat, return_claims}
use vyuh.Tasks.Store.Nodes.Held.{Registered, heartbeat-Registered, Each, Freed, return_claims-Freed}
use vyuh.Tasks.Store.Schedule.{ScheduledTaskWrite, store_scheduled}
use vyuh.Tasks.Store.Schedule.Once.{Later, store_scheduled-once}
use vyuh.Tasks.Store.Operations.{initialize, initialize_rates, initialize_lane_locks}
use vyuh.Tasks.Store.Operations.Ready.{IsReady, initialize-IsReady}
use vyuh.Tasks.Store.Recovery.{recover_tasks}
use vyuh.Tasks.Store.Recovery.Current.{IsCurrent, recover_tasks-IsCurrent}
use vyuh.Examples.Data.{world, waiting, running_on_7, store, conf, mail}

-- Node 9 beats, and node 7 has been silent for too long.
abbrev two_nodes : MemoryState
two_nodes = record store { nodes = (7, (100, 100)) ∷ (9, (150, 190)) ∷ [] }

heartbeat-Registered_example :
    All
      (Registered (heartbeat world 9 50 200 two_nodes).1.nodes)
      (heartbeat world 9 50 200 two_nodes).1.tasks
heartbeat-Registered_example = heartbeat-Registered world 9 50 200 two_nodes (refl, (refl, tt))

running-IsWellFormed : IsWellFormed (running_on_7 1)
running-IsWellFormed = record {
  owned = refl;
  timed = refl;
  stopped = tt;
  attempted = record { counted = refl; stepped = refl; steps = omega arith };
}

waiting-IsWellFormed : IsWellFormed (waiting 2)
waiting-IsWellFormed = record {
  owned = tt;
  timed = refl;
  stopped = tt;
  attempted = record { counted = refl; stepped = refl; steps = omega arith };
}

return_claims-Freed_example :
    Each (Freed (some 7) 200) store.tasks (return_claims (some 7) 200 store).1.tasks
return_claims-Freed_example =
    return_claims-Freed (some 7) 200 store (running-IsWellFormed, (waiting-IsWellFormed, tt))

abbrev nightly : ℕ → ScheduledTaskWrite
nightly occurrence = record {
  name = "nightly";
  occurrence = occurrence;
  write = record { task = waiting 3; ignore_conflicts = false; initial_delay = none };
}

abbrev sent : TaskRecord
sent = record (waiting 3) { created_at = 200; updated_at = 200; ready_at = some 200 }

abbrev scheduled_store : MemoryState
scheduled_store = record store {
  tasks = running_on_7 1 ∷ waiting 2 ∷ sent ∷ [];
  schedules = ("nightly", 200) ∷ [];
}

abbrev weekly : ScheduledTaskWrite
weekly = record (nightly 190) { name = "weekly" }

abbrev weekly_sent : MemoryState
weekly_sent = (store_scheduled world weekly 250 scheduled_store).1

store_scheduled-once_example :
    store_scheduled world (nightly 160) 500 weekly_sent ≡ (ok none, weekly_sent)
unfolding store_scheduled stage_write matching_key validate_write_lanes require_lane require_handler
store_scheduled-once_example =
    store_scheduled-once world (nightly 150) (nightly 160) 200 500 store scheduled_store weekly_sent
      (queued 3) refl (Later.submitted Later.here weekly 250) refl (omega arith)

initialize-IsReady_example :
    All
      (IsReady (record store {
        rates = ("mail", record { tokens_micros = pos 2000000; updated_at = 200 }) ∷ [];
      }))
      (mail ∷ [])
unfolding initialize initialize_rates initialize_lane_locks finalize_workflow deliver_all
    group_deliveries reject_orphaned_tasks is_active full_bucket
initialize-IsReady_example =
    initialize-IsReady world 200 store
      (record store {
        rates = ("mail", record { tokens_micros = pos 2000000; updated_at = 200 }) ∷ [];
      })
      conf refl refl

recover_tasks-IsCurrent_example :
    ((recover_tasks 7 false 200
        (running_on_7 1 ∷ waiting 2 ∷ [])
        (record { rows = store.tasks; cancelled = []; tasks = [] })).rows
      ≡ store.tasks)
    × All (IsCurrent 7 store.tasks) (running_on_7 1 ∷ [])
unfolding recover_tasks
recover_tasks-IsCurrent_example =
    recover_tasks-IsCurrent 7 200 (running_on_7 1 ∷ waiting 2 ∷ []) store.tasks
