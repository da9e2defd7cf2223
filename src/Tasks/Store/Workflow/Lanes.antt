-- ===== src/Tasks/Store/Workflow/Lanes.antt =====
-- A turn's claims, over all lanes, can be taken back.
use vyuh.Prelude.{
  ℕ, List, [], ◌∷◌, Option-cases, inl, inr, Keeps, Keeps-pure, Keeps-read, Keeps-bind, text_key,
  is_some, Bool-cases,
}
use vyuh.Tasks.Externals.{Externals}
use vyuh.Tasks.Types.{TaskStoreConf, TaskLaneConf, find_lane}
use vyuh.Tasks.Store.State.{MemoryState, LaneClaim}
use vyuh.Tasks.Store.Claim.{bounded_claim}
use vyuh.Tasks.Store.Reserve.{configured_rate, configured_retry, reservation}
use vyuh.Tasks.Store.LanePhase.{require_conf, count_work}
use vyuh.Tasks.Store.LaneTurn.{claim_open_lane, claim_one, claim_lanes, claim_tasks_state}
use vyuh.Tasks.Store.Workflow.Undo.{ids, Distinct, Undoable}
use vyuh.Tasks.Store.Workflow.Claims.{
  fail_exhausted-Keeps, claim_lane_state-Keeps, reserve_permits-Keeps,
}
use vyuh.Tasks.Store.Workflow.Owned.{claim_owned_state-Keeps}

module _ (x : Externals) (s : MemoryState) (d : Distinct (ids s.tasks)) where
  claim_open_lane-Keeps :
      (runner : ℕ) (claim : LaneClaim) (lane : TaskLaneConf) (conf : TaskStoreConf) (now : ℕ)
      → Keeps (Undoable s) (claim_open_lane x runner claim lane conf now)
  unfolding claim_open_lane
  claim_open_lane-Keeps runner claim lane conf now =
      Keeps-bind (λ turn. (configured_retry turn.state claim.lane, turn)) _ (Keeps-read _)
        λ policy. Keeps-bind _ _ (fail_exhausted-Keeps x s d claim.lane _ now conf policy) λ _.
          Keeps-bind (count_work claim.lane now) _ (Keeps-read _) λ candidates.
            Keeps-bind (λ turn. (configured_rate turn.state claim.lane, turn)) _ (Keeps-read _)
              λ rate.
                Keeps-bind _ _ (reserve_permits-Keeps x s d claim.lane candidates rate now)
                  λ permits.
                    claim_lane_state-Keeps x s d runner
                      (reservation (bounded_claim claim lane.claim_batch_size) candidates permits)
                      now

  claim_one-Keeps :
      (runner : ℕ) (claim : LaneClaim) (conf : TaskStoreConf) (duration now : ℕ)
      → Keeps (Undoable s) (claim_one x runner claim conf duration now)
  claim_one-Keeps runner claim conf duration now = record {
    at = λ turn u. elim (Option-cases (find_lane conf claim.lane)) [
      | inl e ↦ rw (e, claim_one) u
      | inr (lane, e) ↦ elim (Bool-cases (is_some lane.lane_lock)) [
        | inl f ↦
            rw (e, f, claim_one)
              ((claim_owned_state-Keeps x s d runner claim lane duration now).at turn u)
        | inr f ↦
            rw (e, f, claim_one) ((claim_open_lane-Keeps runner claim lane conf now).at turn u)
      ]
    ];
  }

  claim_lanes-Keeps :
      (runner : ℕ) (claims : List LaneClaim) (conf : TaskStoreConf) (duration now : ℕ)
      → Keeps (Undoable s) (claim_lanes x runner claims conf duration now)
  unfolding claim_lanes
  claim_lanes-Keeps runner [] conf duration now = Keeps-pure []
  claim_lanes-Keeps runner (claim ∷ claims) conf duration now =
      Keeps-bind _ _ (claim_one-Keeps runner claim conf duration now) λ poll.
        Keeps-bind _ _ (claim_lanes-Keeps runner claims conf duration now)
          λ polls. Keeps-pure (poll ∷ polls)

  pub claim_tasks_state-Keeps :
      (runner : ℕ) (claims : List LaneClaim) (duration now : ℕ)
      → Keeps (Undoable s) (claim_tasks_state x runner claims duration now)
  unfolding claim_tasks_state
  claim_tasks_state-Keeps runner claims duration now =
      Keeps-bind require_conf _ (Keeps-read _) λ conf.
        Keeps-bind _ _ (claim_lanes-Keeps runner claims conf duration now) λ lanes. Keeps-pure _
