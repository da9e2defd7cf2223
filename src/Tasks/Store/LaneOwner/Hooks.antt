-- ===== src/Tasks/Store/LaneOwner/Hooks.antt =====
-- The phases that the end of a hook leads to: `apply_memory_hook` in
-- vyuh/src/tasks/store/memory/lane_owner.rs.
use vyuh.Prelude.{
  ℕ, ◌≡◌, refl, ap, sym, subst, ◌&&◌, true, Option, none, some, String, is_empty, is_some_and,
  Bool-cases, Option-cases, Result-cases, inl, inr, ◌⊎◌, ok, and_true,
}
use vyuh.Prelude.Int.{eqb_ℤ, eqb_ℤ→eq, eqb_ℤ_refl, checked_suc, i64_max}
use vyuh.Tasks.Externals.{Externals}
use vyuh.Tasks.Types.{TaskLaneConf, nanos}
use vyuh.Tasks.Store.State.{
  MemoryState, MemoryLaneLock, LaneOwnerPhase, LaneHookAction, LaneHookResult, same_action,
}
use vyuh.Tasks.Store.Queries.{due_indices, checked_deadline}
use vyuh.Tasks.Store.LaneOwner.{
  memory_action, memory_transition, finish_memory_idle, memory_fail_busy, has_busy_hook,
  settle_hook, apply_memory_hook,
}

-- What the end of a hook, with its failure if it failed, may do to the phase: an idle hook parks the
-- lane, wakes it where work has come, with or without a busy hook, or fails; a busy hook activates the
-- lane or fails.
pub data HookStep : LaneHookAction → Option String → LaneOwnerPhase → LaneOwnerPhase → Type 0 where
  parked : HookStep LaneHookAction.idle_hook none LaneOwnerPhase.idling LaneOwnerPhase.idle
  woken : HookStep LaneHookAction.idle_hook none LaneOwnerPhase.idling LaneOwnerPhase.busying
  kept : HookStep LaneHookAction.idle_hook none LaneOwnerPhase.idling LaneOwnerPhase.active
  idle_broken :
      {e : String}
      → HookStep LaneHookAction.idle_hook (some e) LaneOwnerPhase.idling LaneOwnerPhase.idle_failed
  activated : HookStep LaneHookAction.busy_hook none LaneOwnerPhase.busying LaneOwnerPhase.active
  busy_broken :
      {e : String}
      → HookStep LaneHookAction.busy_hook (some e) LaneOwnerPhase.busying LaneOwnerPhase.busy_failed

-- The hook whose end a phase awaits.
pub data Awaits : LaneOwnerPhase → LaneHookAction → Type 0 where
  for_idle : Awaits LaneOwnerPhase.idling LaneHookAction.idle_hook
  for_busy : Awaits LaneOwnerPhase.busying LaneHookAction.busy_hook

awaited_lem :
    {phase : LaneOwnerPhase} {action : LaneHookAction}
    → Awaits phase action
    → is_some_and (memory_action phase) (λ a. same_action a action) ≡ true
unfolding memory_action
awaited_lem for_idle = refl
awaited_lem for_busy = refl

memory_transition_lem :
    (phase : LaneOwnerPhase) (owner owner' : MemoryLaneLock)
    → memory_transition phase owner ≡ (ok tt, owner')
    → owner'.phase ≡ phase
unfolding memory_transition
memory_transition_lem phase owner owner' h =
    elim (Option-cases (checked_suc i64_max owner.generation)) [
      | inl e ↦ let q = ap (λ r. r.0) (rw (e, memory_transition) at h) in cc
      | inr (g, e) ↦ sym (ap (λ r. r.1.phase) (rw (e, memory_transition) at h))
    ]

finish_memory_idle-HookStep :
    (s : MemoryState) (name : String) (lane : TaskLaneConf) (now : ℕ)
    (owner owner' : MemoryLaneLock)
    → finish_memory_idle s name lane now owner ≡ (ok tt, owner')
    → HookStep LaneHookAction.idle_hook none LaneOwnerPhase.idling owner'.phase
unfolding finish_memory_idle
finish_memory_idle-HookStep s name lane now owner owner' h =
    elim (Bool-cases (is_empty (due_indices s.tasks name now))) [
      | inl e ↦
          subst (HookStep LaneHookAction.idle_hook none LaneOwnerPhase.idling)
            (ap (λ r. r.1.phase) (rw (e, finish_memory_idle) at h)) parked
      | inr e ↦ elim (Bool-cases (has_busy_hook lane)) [
        | inl f ↦
            subst (HookStep LaneHookAction.idle_hook none LaneOwnerPhase.idling)
              (sym (
                memory_transition_lem LaneOwnerPhase.busying owner owner'
                  (rw (e, f, finish_memory_idle) at h)))
              woken
        | inr f ↦
            subst (HookStep LaneHookAction.idle_hook none LaneOwnerPhase.idling)
              (ap (λ r. r.1.phase) (rw (e, f, finish_memory_idle) at h)) kept
      ]
    ]

module _ (x : Externals) where
  memory_fail_busy-HookStep :
      (s : MemoryState) (error : String) (now : ℕ) (owner owner' : MemoryLaneLock)
      → memory_fail_busy x s error now owner ≡ (ok tt, owner')
      → HookStep LaneHookAction.busy_hook (some error) LaneOwnerPhase.busying owner'.phase
  unfolding memory_fail_busy
  memory_fail_busy-HookStep s error now owner owner' h =
      let delay : ℕ = elim s.conf [ none ↦ nanos | some conf ↦ conf.poll_interval ] in
      elim (Result-cases (checked_deadline x now delay)) [
        | inl (er, e) ↦ let q = ap (λ r. r.0) (rw (e, memory_fail_busy) at h) in cc
        | inr (at, e) ↦
            subst (HookStep LaneHookAction.busy_hook (some error) LaneOwnerPhase.busying)
              (ap (λ r. r.1.phase) (rw (e, memory_fail_busy) at h)) busy_broken
      ]

  settle_hook-HookStep :
      (s : MemoryState) (phase : LaneOwnerPhase) (action : LaneHookAction) (failure : Option String)
      (name : String) (lane : TaskLaneConf) (now : ℕ) (owner owner' : MemoryLaneLock)
      → is_some_and (memory_action phase) (λ a. same_action a action) ≡ true
      → settle_hook x s action failure name lane now owner ≡ (ok tt, owner')
      → HookStep action failure phase owner'.phase
  unfolding memory_action
  settle_hook-HookStep s LaneOwnerPhase.idling LaneHookAction.idle_hook none name lane now owner
        owner' e h =
      finish_memory_idle-HookStep s name lane now owner owner' h
  settle_hook-HookStep s LaneOwnerPhase.idling LaneHookAction.idle_hook (some error) name lane now
        owner owner' e h =
      subst (HookStep LaneHookAction.idle_hook (some error) LaneOwnerPhase.idling)
        (ap (λ r. r.1.phase) h) idle_broken
  settle_hook-HookStep s LaneOwnerPhase.busying LaneHookAction.busy_hook none name lane now owner
        owner' e h =
      subst (HookStep LaneHookAction.busy_hook none LaneOwnerPhase.busying) (ap (λ r. r.1.phase) h)
        activated
  settle_hook-HookStep s LaneOwnerPhase.busying LaneHookAction.busy_hook (some error) name lane now
        owner owner' e h =
      memory_fail_busy-HookStep s error now owner owner' h
  settle_hook-HookStep s LaneOwnerPhase.idling LaneHookAction.busy_hook failure name lane now owner
        owner' e h =
      cc
  settle_hook-HookStep s LaneOwnerPhase.busying LaneHookAction.idle_hook failure name lane now owner
        owner' e h =
      cc
  settle_hook-HookStep s LaneOwnerPhase.active action failure name lane now owner owner' e h = cc
  settle_hook-HookStep s LaneOwnerPhase.idle action failure name lane now owner owner' e h = cc
  settle_hook-HookStep s LaneOwnerPhase.idle_failed action failure name lane now owner owner' e h =
      cc
  settle_hook-HookStep s LaneOwnerPhase.busy_failed action failure name lane now owner owner' e h =
      cc

  -- Where the report of a hook's end is taken without an error, either it is not the end, for the
  -- lock's generation, of the hook that the lock's phase awaits, and the lock stays as it was; or it is
  -- for the lock's generation, and the phase moves on by a step that the lifecycle allows for it: from
  -- idling to idle, busying or active where an idle hook succeeded and to idle_failed where it failed,
  -- from busying to active where a busy hook succeeded and to busy_failed where it failed.
  pub apply_memory_hook-HookStep :
      (s : MemoryState) (hook : LaneHookResult) (name : String) (lane : TaskLaneConf) (now : ℕ)
      (owner owner' : MemoryLaneLock)
      → apply_memory_hook x s hook name lane now owner ≡ (ok tt, owner')
      → ((owner' ≡ owner)
          × (¬ ((owner.generation ≡ hook.generation) × Awaits owner.phase hook.action)))
        ⊎ ((owner.generation ≡ hook.generation)
            × HookStep hook.action hook.failure owner.phase owner'.phase)
  unfolding apply_memory_hook
  apply_memory_hook-HookStep s hook name lane now owner owner' h =
      elim (Bool-cases (
        eqb_ℤ owner.generation hook.generation
        && is_some_and (memory_action owner.phase) (λ a. same_action a hook.action))) [
          | inl e ↦
              let (same, awaited) =
                and_true (eqb_ℤ owner.generation hook.generation)
                  (is_some_and (memory_action owner.phase) (λ a. same_action a hook.action)) e in
              inr (
                eqb_ℤ→eq owner.generation hook.generation same,
                settle_hook-HookStep s owner.phase hook.action hook.failure name lane now owner
                    owner' awaited (rw (e, apply_memory_hook) at h),
              )
          | inr e ↦ inl (
            sym (ap (λ r. r.1) (rw (e, apply_memory_hook) at h)),
            λ k. let q = rw (k.0, eqb_ℤ_refl hook.generation, awaited_lem k.1) at e in cc,
          )
        ]
