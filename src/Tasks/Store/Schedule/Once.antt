-- ===== src/Tasks/Store/Schedule/Once.antt =====
-- A schedule submits each occurrence once: `store_scheduled` in
-- vyuh/src/tasks/store/memory/store.rs.
use vyuh.Prelude.{
  ℕ, max, ◌≤◌, ◌≡◌, refl, ap, sym, ◌∙◌, String, true, none, some, [], ◌∷◌, Bool-cases, Result-cases,
  inl, inr, lookup, false, List, leb, ◌=$◌, text_key, =$_refl, ok, and_then, arith,
}
use vyuh.Prelude.Maps.{text_laws, lookup-insert}
use vyuh.Tasks.Externals.{Externals}
use vyuh.Tasks.Types.{TaskReceipt, TaskRecord}
use vyuh.Tasks.Store.State.{MemoryState}
use vyuh.Tasks.Store.Submit.{validate_write_lanes, stage_write}
use vyuh.Tasks.Store.Schedule.{ScheduledTaskWrite, is_past, advanced, store_scheduled}

-- The cursor of this name is at this occurrence or past it.
abbrev Past : String → ℕ → MemoryState → Type 0
Past name occurrence s = (last : ℕ) × (lookup name s.schedules ≡ some last) × (occurrence ≤ last)

module _ (x : Externals) where
  cursor_lem :
      (scheduled : ScheduledTaskWrite) (now : ℕ) (s s' : MemoryState) (receipt : TaskReceipt)
      → store_scheduled x scheduled now s ≡ (ok (some receipt), s')
      → lookup scheduled.name s'.schedules ≡ some (max now scheduled.occurrence)
  unfolding store_scheduled
  cursor_lem scheduled now s s' receipt h = elim (Bool-cases (is_past scheduled s)) [
    | inl e ↦ let q = ap (λ r. r.0) (rw (e, store_scheduled) at h) in cc
    | inr e ↦
        elim (Result-cases (
          and_then (validate_write_lanes s (scheduled.write ∷ []))
            λ _. stage_write x s.tasks [] scheduled.write now)) [
              | inl (er, f) ↦ let q = ap (λ r. r.0) (rw (e, f, store_scheduled) at h) in cc
              | inr ((r, staged), f) ↦
                  ap (λ u. lookup scheduled.name u.1.schedules)
                    (sym (rw (e, f, store_scheduled) at h))
                  ∙ lookup-insert scheduled.name scheduled.name (max now scheduled.occurrence)
                      s.schedules
                  ∙ rw (=$_refl scheduled.name) refl
            ]
  ]

  -- How the store goes on: schedules are submitted, under any names and at any times, and everything
  -- else leaves the cursors as they are.
  pub data Later (s : MemoryState) : MemoryState → Type 0 where
    here : Later s s
    submitted :
        {s' : MemoryState}
        → Later s s'
        → (other : ScheduledTaskWrite) (now : ℕ) → Later s (store_scheduled x other now s').1
    changed : {s' s'' : MemoryState} → Later s s' → s''.schedules ≡ s'.schedules → Later s s''

  advanced-Past :
      (other : ScheduledTaskWrite) (now : ℕ) (s : MemoryState) (name : String) (occurrence : ℕ)
      (staged : List TaskRecord)
      → is_past other s ≡ false
      → Past name occurrence s
      → Past name occurrence (advanced other now staged s)
  advanced-Past other now s name occurrence staged e (last, f, g) =
      let moved = lookup-insert other.name name (max now other.occurrence) s.schedules in
      elim (Bool-cases (other.name =$ name)) [
        | inr h ↦ (last, (rw (moved, h) f), g)
        | inl h ↦
            let same : other.name ≡ name = text_laws.same→eq other.name name h in
            let after : leb other.occurrence last ≡ false = rw (same, f) at e in
            (max now other.occurrence, (rw (moved, h) refl), ground (arith, after, g))
      ]

  store_scheduled-Past :
      (other : ScheduledTaskWrite) (now : ℕ) (s : MemoryState) (name : String) (occurrence : ℕ)
      → Past name occurrence s
      → Past name occurrence (store_scheduled x other now s).1
  unfolding store_scheduled
  store_scheduled-Past other now s name occurrence h = elim (Bool-cases (is_past other s)) [
    | inl e ↦ rw (e, store_scheduled) h
    | inr e ↦
        elim (Result-cases (
          and_then (validate_write_lanes s (other.write ∷ []))
            λ _. stage_write x s.tasks [] other.write now)) [
              | inl (er, f) ↦ rw (e, f, store_scheduled) h
              | inr ((r, staged), f) ↦
                  rw (e, f, store_scheduled) (advanced-Past other now s name occurrence staged e h)
            ]
  ]

  Later-Past :
      (name : String) (occurrence : ℕ) (s s' : MemoryState)
      → Past name occurrence s
      → Later s s'
      → Past name occurrence s'
  Later-Past name occurrence s s' h here = h
  Later-Past name occurrence s s' h (submitted {s' = s''} k other now) =
      store_scheduled-Past other now s'' name occurrence (Later-Past name occurrence s s'' h k)
  Later-Past name occurrence s s' h (changed k e) =
      let (last, f, g) = Later-Past name occurrence s _ h k in (last, (rw e f), g)

  -- Once a schedule has submitted an occurrence, every later submission under its name for an
  -- occurrence that is not after that one, nor after the time of that submission, does nothing,
  -- whatever other submissions of schedules there were in between, and whatever changes of the store
  -- that leave the schedules' cursors as they are.
  pub store_scheduled-once :
      (scheduled again : ScheduledTaskWrite) (now later : ℕ) (s s' s'' : MemoryState)
      (receipt : TaskReceipt)
      → store_scheduled x scheduled now s ≡ (ok (some receipt), s')
      → Later s' s''
      → again.name ≡ scheduled.name
      → again.occurrence ≤ max now scheduled.occurrence
      → store_scheduled x again later s'' ≡ (ok none, s'')
  unfolding store_scheduled
  store_scheduled-once scheduled again now later s s' s'' receipt h since e k =
      let (last, f, g) =
        Later-Past scheduled.name again.occurrence s' s''
          (max now scheduled.occurrence, cursor_lem scheduled now s s' receipt h, k) since in
      let past : is_past again s'' ≡ true = rw (e, f) (ground (arith, g)) in
      rw (past, store_scheduled) refl
