-- ===== src/Tasks/Store/Workflow/Claims.antt =====
-- Every step of a claim can be taken back: the rows through the undo list, and the rates and the
-- locks as a whole.
use vyuh.Prelude.{
  ℕ, Bool, true, false, if◌then◌else◌, Option, none, some, String, List, [], ◌∷◌, Option-cases, inl,
  inr, Keeps, Keeps-pure, Keeps-read, Keeps-bind, Result, Done, ok, err, text_key, HashMap,
  get_elem?, arith,
}
use vyuh.Tasks.Externals.{Externals}
use vyuh.Tasks.Types.{TaskRecord, TaskStoreConf, TaskRetry, TaskRate}
use vyuh.Tasks.Retry
use vyuh.Tasks.Rate.{RateBucket}
use vyuh.Tasks.Store.State.{MemoryState, Turn}
use vyuh.Tasks.Store.Claim.{
  touch, missing_candidate, final_outcome, finalize_candidate, finalize_candidates, fail_exhausted,
  claim_rows, claim_row, claim_lane, finalize_row,
}
use vyuh.Tasks.Store.Reserve.{
  reserve_permits, reserve_bucket, on_state, ClaimReservation, claim_lane_state,
}
use vyuh.Tasks.Store.LaneTurn.{release_row, release_rows}
use vyuh.Tasks.Store.Workflow.Undo.{ids, Distinct, Undoable, touch-Keeps}
use vyuh.Tasks.Store.Workflow.Rows.{finalize_row-KeepsId, claim_row-KeepsId, release_row-KeepsId}

module _ (x : Externals) (s : MemoryState) (d : Distinct (ids s.tasks)) where
  -- Rates and locks are not taken back through the undo list.
  unrated :
      {turn : Turn} {rates : HashMap String RateBucket}
      → Undoable s turn
      → Undoable s (record turn { state = record (turn.state) { rates = rates } })
  unrated u = record {
    back = u.back;
    same_ids = u.same_ids;
    nodes = u.nodes;
    conf = u.conf;
    schedules = u.schedules;
    waits = u.waits;
  }

  finalized :
      (cancelled : Bool) (exhausted : Result Bool) (turn : Turn) (m : Result Done × Turn)
      → Undoable s m.1
      → Undoable s turn
      → Undoable s
          (if cancelled then m else elim exhausted [
            | err e ↦ (err e, turn)
            | ok false ↦ (ok tt, turn)
            | ok true ↦ m
          ]).1
  finalized true exhausted turn m h u = h
  finalized false (err e) turn m h u = u
  finalized false (ok false) turn m h u = u
  finalized false (ok true) turn m h u = h

  finalize_candidate-Keeps :
      (conf : TaskStoreConf) (policy : TaskRetry) (now i : ℕ)
      → Keeps (Undoable s) (finalize_candidate x conf policy now i)
  unfolding finalize_candidate
  finalize_candidate-Keeps conf policy now i = record {
    at = λ turn u.
        let done : (t : TaskRecord)
            → Undoable s
                (touch missing_candidate i (finalize_row x conf policy (final_outcome x t) now)
                  turn).1 =
          λ t.
            (touch-Keeps s d missing_candidate i
                (finalize_row x conf policy (final_outcome x t) now)
                (finalize_row-KeepsId x conf policy (final_outcome x t) now)).at
              turn u in
        elim (Option-cases (get_elem? turn.state.tasks i)) [
          | inl g ↦ rw (g, finalize_candidate) u
          | inr (t, g) ↦
              rw (g, finalize_candidate)
                (finalized t.cancelled (Retry.exhausted policy t.step_attempts) turn _ (done t) u)
        ];
  }

  pub fail_exhausted-Keeps :
      (lane : String) (limit now : ℕ) (conf : TaskStoreConf) (policy : TaskRetry)
      → Keeps (Undoable s) (fail_exhausted x lane limit now conf policy)
  unfolding fail_exhausted finalize_candidates
  fail_exhausted-Keeps lane limit now conf policy = record { at = λ turn u. (all _).at turn u }
    where
      all : (is : List ℕ) → Keeps (Undoable s) (finalize_candidates x conf policy now is)
      all [] = Keeps-pure tt
      all (i ∷ is) = Keeps-bind _ _ (finalize_candidate-Keeps conf policy now i) λ _. all is

  claim_rows-Keeps : (runner now : ℕ) (is : List ℕ) → Keeps (Undoable s) (claim_rows runner now is)
  unfolding claim_rows
  claim_rows-Keeps runner now [] = Keeps-pure []
  claim_rows-Keeps runner now (i ∷ is) =
      Keeps-bind _ _ (touch-Keeps s d _ i (claim_row runner now) (claim_row-KeepsId runner now))
        λ t. Keeps-bind _ _ (claim_rows-Keeps runner now is) λ ts. Keeps-pure (t ∷ ts)

  pub release_rows-Keeps : (now : ℕ) (is : List ℕ) → Keeps (Undoable s) (release_rows x now is)
  unfolding release_rows
  release_rows-Keeps now [] = Keeps-pure tt
  release_rows-Keeps now (i ∷ is) =
      Keeps-bind _ _ (touch-Keeps s d _ i (release_row x now) (release_row-KeepsId x now))
        λ _. release_rows-Keeps now is

  pub claim_lane_state-Keeps :
      (runner : ℕ) (r : ClaimReservation) (now : ℕ)
      → Keeps (Undoable s) (claim_lane_state runner r now)
  unfolding claim_lane_state claim_lane
  claim_lane_state-Keeps runner r now =
      Keeps-bind (claim_lane runner r.claim r.permits now) _
        (record {
          at = λ turn u.
              (Keeps-bind _ _ (claim_rows-Keeps runner now _) (λ _. Keeps-pure _)).at turn u;
        })
        λ poll. Keeps-read _

  -- A reservation changes no more than the rates.
  pub reserve_permits-Keeps :
      (lane : String) (limit : ℕ) (rate : Option TaskRate) (now : ℕ)
      → Keeps (Undoable s) (on_state (reserve_permits x lane limit rate now))
  unfolding reserve_permits reserve_bucket
  reserve_permits-Keeps lane limit none now = record { at = λ turn u. unrated u }
  reserve_permits-Keeps lane limit (some rate) now = record { at = λ turn u. ground arith }
