-- ===== src/Examples/Runs.antt =====
-- Runs of the operations that the theorems do not enter: what they give on the example store.
use vyuh.Prelude.{◌≡◌, some, false, [], ◌∷◌, refl, ok, err, lane_busy}
use vyuh.Prelude.Int.{pos}
use vyuh.Tasks.Rate.{is_invalid_rate, next_permit, permit_delay}
use vyuh.Tasks.Store.Queries.{is_reassignable}
use vyuh.Tasks.Store.Submit.{require_lane}
use vyuh.Tasks.Store.Nodes.{register_node, reassign_lane, resume}
use vyuh.Tasks.Result.{validate_resume, validate_size, check_size}
use vyuh.Examples.Data.{world, waiting, store, five_a_second}

-- A rate of five permits a second is valid, and an empty bucket has its next one in 200 ms.
five_a_second_valid : is_invalid_rate five_a_second ≡ false
unfolding is_invalid_rate
five_a_second_valid = refl

next_permit_run : next_permit (pos 0) five_a_second 1000 1000 ≡ some 200000000
unfolding next_permit permit_delay
next_permit_run = refl

-- A node that is known keeps the time of its registration.
register_node_run : register_node 7 500 store ≡ store
unfolding register_node
register_node_run = refl

-- A lane with running work is not moved, and one without any is.
reassign_lane_busy : (reassign_lane "mail" "mail" 200 store).0 ≡ err (lane_busy "mail")
unfolding reassign_lane require_lane mathlib.Core.Option.bind
reassign_lane_busy = refl

reassign_lane_run :
    (reassign_lane "old" "mail" 200
      (record store { tasks = record (waiting 2) { lane = "old" } ∷ [] })).0
    ≡ ok 1
unfolding reassign_lane require_lane is_reassignable mathlib.Core.Option.bind
reassign_lane_run = refl

-- Only a suspended task is resumed.
resume_run : (resume world 2 "null" 200 store).0 ≡ ok false
unfolding resume validate_resume validate_size check_size
resume_run = refl
