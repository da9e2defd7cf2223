-- ===== src/Channels/Debounce/Quiet.antt =====
-- What a window of quiet emits, and when: vyuh/src/utils/debounce.rs.
use vyuh.Prelude.{
  ℕ, ◌+◌, ◌≤◌, ◌<◌, leb, ◌==◌, not, Bool, true, false, ◌≡◌, refl, ap, ◌∙◌, eq→==, Option, none,
  some, List, [], ◌∷◌, ◌++◌, length, filter, All, All-append, arith,
}
use vyuh.Prelude.Int.{u64_max}
use vyuh.Channels.Types.{wrapping_suc}
use vyuh.Channels.Debounce.{DebounceMode, DebounceDeadline, DebouncePush, Debouncer, push, due}
use vyuh.Channels.Debounce.Generations.{gens, gens-apart, wrapping_suc-le}

abbrev queued : Option DebounceDeadline → List DebounceDeadline
queued none = []
queued (some e) = e ∷ []

abbrev is_due : ℕ → DebounceDeadline → Bool
is_due now e = leb e.deadline now

-- Deadlines that do not come before a time.
abbrev AllFrom : ℕ → List DebounceDeadline → Type 0
AllFrom limit es = All (λ e. limit ≤ e.deadline) es

none_due :
    (limit now : ℕ) (es : List DebounceDeadline)
    → AllFrom limit es
    → now < limit
    → (filter (is_due now) es ≡ []) × (filter (λ e. not (is_due now e)) es ≡ es)
none_due limit now [] h k = (refl, refl)
none_due limit now (e ∷ es) h k =
    let rest = none_due limit now es h.1 k in
    let later : leb e.deadline now ≡ false = ground (arith, h.0, k) in
    ((rw later rest.0), (rw later (ap (λ ds. e ∷ ds) rest.1)))

abbrev ends : ℕ → ℕ → ℕ → DebounceDeadline
ends window generation now = record { generation = generation; deadline = now + window }

-- Deadlines of other generations.
abbrev Stale : ℕ → List DebounceDeadline → Type 0
Stale generation es = All (λ e. (e.generation == generation) ≡ false) es

module _ {ℓ} {T : Type ℓ} where
  -- What is emitted, each value with the time of its emission.
  abbrev stamp : ℕ → Option T → List (T × ℕ) → List (T × ℕ)
  stamp now none later = later
  stamp now (some value) later = (value, now) ∷ later

  -- Deadlines come, each at its time.
  abbrev come : List DebounceDeadline → Debouncer T → List (T × ℕ) × Debouncer T
  come [] d = ([], d)
  come (e ∷ es) d =
      let first = due e.generation d in
      let rest = come es first.1 in (stamp e.deadline first.0 rest.0, rest.1)

  -- Values come, each at its time and after the deadlines that are due by then, and at last the
  -- deadlines that are left.
  abbrev pub play : List DebounceDeadline → List (T × ℕ) → Debouncer T → List (T × ℕ) × Debouncer T
  play waiting [] d = come waiting d
  play waiting (v ∷ later) d =
      let passed = come (filter (is_due v.1) waiting) d in
      let first = push v.0 v.1 passed.1 in
      let rest =
        play (filter (λ e. not (is_due v.1 e)) waiting ++ queued first.0.deadline) later first.1 in
      (passed.0 ++ stamp v.1 first.0.emission rest.0, rest.1)

  -- Values that come in the order of their times, from one time on and before another.
  abbrev pub Within : ℕ → ℕ → List (T × ℕ) → Type 0
  Within now limit [] = Unit
  Within now limit (v ∷ later) = (now ≤ v.1) × (v.1 < limit) × Within v.1 limit later

  abbrev pub last_of : T × ℕ → List (T × ℕ) → T × ℕ
  last_of v [] = v
  last_of v (next ∷ later) = last_of next later

  -- A value that is emitted when the window after it is over.
  abbrev pub after_window : ℕ → T × ℕ → T × ℕ
  after_window window v = (v.0, v.1 + window)

  -- What each mode promises for a value and those that come within its window.
  abbrev pub promised : DebounceMode → ℕ → T × ℕ → List (T × ℕ) → List (T × ℕ)
  promised DebounceMode.leading window v later = v ∷ []
  promised DebounceMode.trailing window v later = after_window window (last_of v later) ∷ []
  promised DebounceMode.leading_and_trailing window v [] = v ∷ []
  promised DebounceMode.leading_and_trailing window v (next ∷ later) =
      v ∷ after_window window (last_of next later) ∷ []

  -- The state before a window is opened.
  abbrev pub quiet : DebounceMode → ℕ → ℕ → Debouncer T
  quiet mode window generation = record {
    conf = record { window = window; mode = mode };
    active = false;
    generation = generation;
    pending = none;
    saw_extra = false;
  }

  -- The state of a window that is open.
  abbrev held : DebounceMode → ℕ → Option T → Bool → ℕ → Debouncer T
  held mode window value extra generation = record {
    conf = record { window = window; mode = mode };
    active = true;
    generation = generation;
    pending = value;
    saw_extra = extra;
  }

  come-Stale :
      (es : List DebounceDeadline) (last : DebounceDeadline) (d : Debouncer T)
      → Stale d.generation es
      → come (es ++ last ∷ []) d
        ≡ (stamp last.deadline (due last.generation d).0 [], (due last.generation d).1)
  unfolding due
  come-Stale [] last d h = refl
  come-Stale (e ∷ es) last d h = rw h.0 (come-Stale es last d h.1)

  -- A mode in which an open window holds a value, which each that comes replaces.
  module _ (mode : DebounceMode) (window : ℕ) (extra : Bool)
      (step : (value next : T) (now g : ℕ)
        → ◌≡◌ {A = DebouncePush T × Debouncer T}
            (push next now (held mode window (some value) extra g))
            (
              record { emission = none; deadline = some (ends window (wrapping_suc g) now) },
              held mode window (some next) extra (wrapping_suc g),
            ))
      (finish : (value : T) (g : ℕ)
        → due g (held mode window (some value) extra g) ≡ (some value, quiet mode window g)) where
    play-postponed :
        (limit : ℕ) (v : T × ℕ) (later : List (T × ℕ)) (g : ℕ) (olds : List DebounceDeadline)
        → AllFrom limit olds
        → limit ≤ v.1 + window
        → Stale (gens later g) olds
        → Within v.1 limit later
        → g ≤ u64_max
        → length later ≤ u64_max
        → play (olds ++ ends window g v.1 ∷ []) later (held mode window (some v.0) extra g)
          ≡ (after_window window (last_of v later) ∷ [], quiet mode window (gens later g))
    play-postponed limit v [] g olds from bound stale within small count =
        come-Stale olds (ends window g v.1) (held mode window (some v.0) extra g) stale
        ∙ rw (finish v.0 g) refl
    play-postponed limit v (next ∷ later) g olds from bound stale within small count =
        let all =
          All-append (λ e. limit ≤ e.deadline) olds (ends window g v.1 ∷ []) from (bound, tt) in
        let (due_now, left) = none_due limit next.1 (olds ++ ends window g v.1 ∷ []) all within.1 in
        let apart =
          All-append (λ e. (e.generation == gens (next ∷ later) g) ≡ false) olds
            (ends window g v.1 ∷ []) stale (gens-apart next later g small count, tt) in
        rw (due_now, left, step v.0 next.0 next.1 g)
          (play-postponed limit next later (wrapping_suc g) (olds ++ ends window g v.1 ∷ []) all
            (omega arith) apart within.2 (wrapping_suc-le g) (omega arith))

  finish-trailing :
      (window : ℕ) (value : T) (g : ℕ)
      → due g (held DebounceMode.trailing window (some value) false g)
        ≡ (some value, quiet DebounceMode.trailing window g)
  unfolding due
  finish-trailing window value g = rw (eq→== g g refl) refl

  finish-both :
      (window : ℕ) (value : T) (g : ℕ)
      → due g (held DebounceMode.leading_and_trailing window (some value) true g)
        ≡ (some value, quiet DebounceMode.leading_and_trailing window g)
  unfolding due
  finish-both window value g = rw (eq→== g g refl) refl

  finish-single :
      (mode : DebounceMode) (window g : ℕ)
      → ¬ (mode ≡ DebounceMode.trailing)
      → due g (held mode window none false g) ≡ (none, quiet mode window g)
  unfolding due
  finish-single DebounceMode.leading window g h = rw (eq→== g g refl) refl
  finish-single DebounceMode.trailing window g h = absurd (h refl)
  finish-single DebounceMode.leading_and_trailing window g h = rw (eq→== g g refl) refl

  play-leading :
      (window g limit now : ℕ) (e : DebounceDeadline) (later : List (T × ℕ))
      → e.generation ≡ g
      → limit ≤ e.deadline
      → Within now limit later
      → play (e ∷ []) later (held DebounceMode.leading window none false g)
        ≡ ([], quiet DebounceMode.leading window g)
  unfolding push
  play-leading window g limit now e [] same bound within =
      rw (same, finish-single DebounceMode.leading window g (λ k. cc)) refl
  play-leading window g limit now e (v ∷ later) same bound within =
      let (due_now, left) = none_due limit v.1 (e ∷ []) (bound, tt) within.1 in
      rw (due_now, left) (play-leading window g limit v.1 e later same bound within.2)

  -- Where values come in the order of their times, starting from quiet, all before the window of the
  -- first is over, and those after the first are no more than a u64 counts, exactly those that the
  -- mode promises are emitted: leading, the first when it comes; trailing, the last when the window
  -- after it is over; and leading and trailing, the first when it comes and, if there are others, the
  -- last of them when the window after it is over. Then it is quiet again.
  pub play-promised :
      (mode : DebounceMode) (window g : ℕ) (v : T × ℕ) (later : List (T × ℕ))
      → Within v.1 (v.1 + window) later
      → length later ≤ u64_max
      → let run = play [] (v ∷ later) (quiet mode window g) in
        run ≡ (promised mode window v later, quiet mode window run.1.generation)
  unfolding push
  play-promised DebounceMode.leading window g v later within count =
      let e =
        play-leading window (wrapping_suc g) (v.1 + window) v.1 (ends window (wrapping_suc g) v.1)
          later refl (omega arith) within in
      rw e refl
  play-promised DebounceMode.trailing window g v later within count =
      let e =
        play-postponed DebounceMode.trailing window false (λ value next now k. refl)
          (finish-trailing window) (v.1 + window) v later (wrapping_suc g) [] tt (omega arith) tt
          within (wrapping_suc-le g) count in
      rw e refl
  play-promised DebounceMode.leading_and_trailing window g v [] within count =
      rw (finish-single DebounceMode.leading_and_trailing window (wrapping_suc g) (λ k. cc)) refl
  play-promised DebounceMode.leading_and_trailing window g v (next ∷ later) within count =
      let g' = wrapping_suc g in
      let first = ends window g' v.1 in
      let (due_now, left) =
        none_due (v.1 + window) next.1 (first ∷ []) ((omega arith), tt) within.1 in
      let e =
        play-postponed DebounceMode.leading_and_trailing window true (λ value next now k. refl)
          (finish-both window) (v.1 + window) next later (wrapping_suc g') (first ∷ [])
          ((omega arith), tt) (omega (arith, within.0))
          (gens-apart next later g' (wrapping_suc-le g) count, tt) within.2 (wrapping_suc-le g')
          (omega arith) in
      rw (due_now, left, e) refl
