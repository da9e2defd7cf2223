-- ===== src/Tasks/Store/Claim/Bounds.antt =====
-- How much one claim hands out: `claim_lane` in vyuh/src/tasks/store/memory/store.rs.
use vyuh.Prelude.{
  ℕ, suc, ◌-◌, ◌≤◌, ◌≡◌, refl, ap, sym, ◌∙◌, subst, Bool, if◌then◌else◌, some, String, List, [],
  ◌∷◌, map, Option-cases, inl, inr, All, get_elem?, length, filter, take, is_some_and, ◌==◌,
  map-set_same, get_elem?-map, length-take-le, ok, ok_eq, bind-ok, arith,
}
use vyuh.Tasks.Types.{TaskRecord, TaskKind, TaskStatus, same_kind}
use vyuh.Tasks.Store.State.{Turn, LaneClaim, LanePoll}
use vyuh.Tasks.Store.Lifecycle.{claim_task}
use vyuh.Tasks.Store.Lifecycle.WellFormed.{claim_task-ok}
use vyuh.Tasks.Store.Claim.{
  Row, Delivery, on_record, touch, permitted, claim_window, claim_row, claim_rows, claim_lane,
}

abbrev kinds : List TaskRecord → List TaskKind
kinds = map λ t. t.kind

abbrev is_work : TaskRecord → Bool
is_work t = same_kind t.kind TaskKind.work

abbrev work_at : List TaskKind → ℕ → Bool
work_at ks i = is_some_and (get_elem? ks i) λ k. same_kind k TaskKind.work

-- How many of the positions hold work.
abbrev work_among : List TaskKind → List ℕ → ℕ
work_among ks [] = 0
work_among ks (i ∷ is) = if work_at ks i then suc (work_among ks is) else work_among ks is

chosen_work :
    (ks : List TaskKind) (i permits : ℕ) (cancelled : Bool) (kind : TaskKind) (next spent : List ℕ)
    → work_at ks i ≡ same_kind kind TaskKind.work
    → work_among ks next ≤ permits
    → work_among ks spent ≤ permits - 1
    → work_among ks (
        if cancelled
        then next
        else if same_kind kind TaskKind.flow
        then i ∷ next
        else if permits == 0
        then next
        else i ∷ spent)
      ≤ permits
chosen_work ks i permits cancelled TaskKind.work next spent e h k = ground arith
chosen_work ks i permits cancelled TaskKind.flow next spent e h k = ground arith

-- A permit is taken for each work task that is chosen.
permitted_work :
    (tasks : List TaskRecord) (permits : ℕ) (is : List ℕ)
    → work_among (kinds tasks) (permitted tasks permits is) ≤ permits
unfolding permitted
permitted_work tasks permits [] = omega arith
permitted_work tasks permits (i ∷ is) = elim (Option-cases (get_elem? tasks i)) [
  | inl e ↦ rw (e, permitted) (permitted_work tasks permits is)
  | inr (t, e) ↦
      rw (e, permitted)
        (chosen_work (kinds tasks) i permits t.cancelled t.kind _ _
          (ap (λ o. is_some_and o (λ k. same_kind k TaskKind.work))
            (get_elem?-map (λ u. u.kind) tasks i t e))
          (permitted_work tasks permits is) (permitted_work tasks (permits - 1) is))
]

permitted_length :
    (tasks : List TaskRecord) (permits : ℕ) (is : List ℕ)
    → length (permitted tasks permits is) ≤ length is
unfolding permitted
permitted_length tasks permits [] = omega arith
permitted_length tasks permits (i ∷ is) = elim (Option-cases (get_elem? tasks i)) [
  | inl e ↦ rw (e, permitted) (omega (arith, permitted_length tasks permits is))
  | inr (t, e) ↦
      rw (e, permitted)
        (ground (arith, permitted_length tasks permits is, permitted_length tasks (permits - 1) is))
]

-- A row as a claim hands it out.
pub record Claimed (runner : ℕ) (t : TaskRecord) : Type 0 where
  pub running : t.status ≡ TaskStatus.running
  pub by : t.node_id ≡ some runner

claim_row-Claimed :
    (runner now : ℕ) (t : TaskRecord) (ds : List Delivery) {a : TaskRecord} {row : Row}
    → claim_row runner now (t, ds) ≡ (ok a, row)
    → Claimed runner a × (a ≡ row.0) × (row.0.kind ≡ t.kind)
unfolding claim_row
claim_row-Claimed runner now t ds {a} {row} h =
    let (d, mid, e, h1) = bind-ok (on_record (claim_task runner now)) _ (t, ds) h in
    let (n, m, f, g, same) = claim_task-ok runner now t {t' = mid.0} (λ i. ((e i).0, (e i).1.0)) in
    let handed : a ≡ mid.0 = sym (ok_eq _ _ (ap (λ r. r.0) h1)) in
    let kept : mid.0 ≡ row.0 = ap (λ r. r.1.0) h1 in
    (
      subst (Claimed runner) (sym (handed ∙ same)) (record { running = refl; by = refl }),
      handed ∙ kept,
      ap (λ r. r.kind) (sym kept ∙ same),
    )

touch-Claimed :
    (runner now i : ℕ) (missing : String) (turn : Turn) {a : TaskRecord} {next : Turn}
    → touch missing i (claim_row runner now) turn ≡ (ok a, next)
    → Claimed runner a
      × (work_at (kinds turn.state.tasks) i ≡ is_work a)
      × (kinds next.state.tasks ≡ kinds turn.state.tasks)
unfolding touch
touch-Claimed runner now i missing turn {a} {next} h =
    elim (Option-cases (get_elem? turn.state.tasks i)) [
      | inl g ↦ let k = ap (λ r. r.0) (rw (g, touch) at h) in cc
      | inr (t, g) ↦
          let k = rw (g, touch) at h in
          let row : Row = (claim_row runner now (t, turn.deliveries)).1 in
          let (given, same, kind) =
            claim_row-Claimed runner now t turn.deliveries {a = a} {row = row}
              (λ j. ((k j).0, row)) in
          (
            given,
            ap (λ o. is_some_and o (λ c. same_kind c TaskKind.work))
                  (get_elem?-map (λ u. u.kind) turn.state.tasks i t g)
                ∙ ap (λ c. same_kind c TaskKind.work) (sym (ap (λ u. u.kind) same ∙ kind)),
            sym (ap (λ r. kinds r.1.state.tasks) k)
                ∙ map-set_same (λ u. u.kind) turn.state.tasks i t row.0 g kind,
          )
    ]

-- The rows of a claim, of which as many are work as positions hold work.
pub record Rows (runner : ℕ) (ks : List TaskKind) (is : List ℕ) (rows : List TaskRecord)
    : Type 0 where
  each : All (Claimed runner) rows
  pub count : length rows ≡ length is
  pub work : length (filter is_work rows) ≡ work_among ks is

claim_rows-Rows :
    (runner now : ℕ) (ks : List TaskKind) (is : List ℕ) (turn : Turn) {rows : List TaskRecord}
    {turn' : Turn}
    → kinds turn.state.tasks ≡ ks
    → claim_rows runner now is turn ≡ (ok rows, turn')
    → Rows runner ks is rows
unfolding claim_rows
claim_rows-Rows runner now ks [] turn {rows} {turn'} e h =
    subst (Rows runner ks []) (ok_eq _ _ (ap (λ r. r.0) h))
      (record { each = tt; count = refl; work = refl })
claim_rows-Rows runner now ks (i ∷ is) turn {rows} {turn'} e h =
    let (t, next, f, h1) =
      bind-ok (touch "task candidate disappeared during claim" i (claim_row runner now)) _ turn h in
    let (ts, last, g, h2) = bind-ok (claim_rows runner now is) _ next h1 in
    let (given, work, kept) = touch-Claimed runner now i _ turn f in
    let rest = claim_rows-Rows runner now ks is next (kept ∙ e) g in
    subst (Rows runner ks (i ∷ is)) (ok_eq _ _ (ap (λ r. r.0) h2)) (record {
      each = (given, rest.each);
      count = omega (arith, rest.count);
      work = counted t ts (subst (λ l. work_at l i ≡ is_work t) e work) rest.work;
    })
  where
    counted :
        (t : TaskRecord) (ts : List TaskRecord)
        → work_at ks i ≡ is_work t
        → length (filter is_work ts) ≡ work_among ks is
        → length (filter is_work (t ∷ ts)) ≡ work_among ks (i ∷ is)
    counted t ts w k = rw w (ground (arith, k))

-- What a claim may hand out.
pub record Bounded (runner : ℕ) (claim : LaneClaim) (permits : ℕ) (poll : LanePoll) : Type 0 where
  each : All (Claimed runner) poll.tasks
  pub within : length poll.tasks ≤ claim.limit
  pub permitted : length (filter is_work poll.tasks) ≤ permits

-- A claim that succeeds hands out at most as many tasks as it is limited to, of which at most as
-- many are work tasks as it has permits for, flows needing none; every one of them runs on the
-- runner that claims.
pub claim_lane-Bounded :
    (runner : ℕ) (claim : LaneClaim) (permits now : ℕ) (turn : Turn) {poll : LanePoll}
    {turn' : Turn}
    → claim_lane runner claim permits now turn ≡ (ok poll, turn')
    → Bounded runner claim permits poll
unfolding claim_lane
claim_lane-Bounded runner claim permits now turn {poll} {turn'} h =
    let tasks : List TaskRecord = turn.state.tasks in
    let window : List ℕ = take claim.limit (claim_window tasks claim permits now) in
    let chosen : List ℕ = permitted tasks permits window in
    let (rows, last, f, h1) = bind-ok (claim_rows runner now chosen) _ turn h in
    let made = claim_rows-Rows runner now (kinds tasks) chosen turn refl f in
    subst (Bounded runner claim permits) (ok_eq _ _ (ap (λ r. r.0) h1)) (record {
      each = made.each;
      within = omega (
        arith,
        made.count,
        permitted_length tasks permits window,
        length-take-le claim.limit (claim_window tasks claim permits now),
      );
      permitted = omega (arith, made.work, permitted_work tasks permits window);
    })
