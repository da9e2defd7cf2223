-- ===== src/Channels/Scheduler.antt =====
-- The task that delivers what waited for its window: `run_debounce` of vyuh/src/channels/runtime.rs with
-- the queue of vyuh/src/utils/debounce.rs. Each turn of its loop is a function of the time of the turn;
-- where several turns are possible, a run chooses.
use vyuh.Prelude.{
  ℕ, leb, ◌==◌, ◌&&◌, if◌then◌else◌, inl, inr, Option-cases, Option, none, some, List, [], ◌∷◌, Key,
  HashMap, lookup, insert, unwrap_or,
}
use vyuh.Channels.Types.{
  same_target, DebounceKey, PendingPayload, DebounceInput, ChannelEvent, Mpsc,
}
use vyuh.Channels.Debounce.{DebounceDeadline, Debouncer, trailing_conf, push, due}
use vyuh.Channels.Debounce
use vyuh.Channels.Runtime.{SubscriptionRuntime, deliver_debounced}
use vyuh.Channels.Runtime.Reach.{Reach, Step}

instance abbrev pub debounce_key : Key DebounceKey
debounce_key = record {
  same = λ a b.
      same_target a.target.channel b.target.channel
      && a.target.generation == b.target.generation
      && a.type_id == b.type_id;
}

pub record QueuedDeadline : Type 0 where
  pub key : DebounceKey
  pub deadline : DebounceDeadline

-- `states` and `deadlines` of the loop.
pub record Scheduler (D : Type 0) : Type 0 where
  pub states : HashMap DebounceKey (Debouncer (PendingPayload D))
  pub deadlines : List QueuedDeadline

-- The top of the heap, and the rest of it.
abbrev pub earliest : QueuedDeadline → List QueuedDeadline → QueuedDeadline × List QueuedDeadline
earliest top [] = (top, [])
earliest top (q ∷ qs) =
    let (first, rest) = earliest q qs in
    if leb top.deadline.deadline first.deadline.deadline then (top, q ∷ qs) else (first, top ∷ rest)

-- `pop` at a time: none where it would wait.
abbrev pub pop : ℕ → List QueuedDeadline → Option (QueuedDeadline × List QueuedDeadline)
pop now [] = none
pop now (q ∷ qs) =
    let (first, rest) = earliest q qs in
    if leb first.deadline.deadline now then some (first, rest) else none

abbrev pub push_deadline :
    DebounceKey → Option DebounceDeadline → List QueuedDeadline → List QueuedDeadline
push_deadline key none deadlines = deadlines
push_deadline key (some t) deadlines = record { key = key; deadline = t } ∷ deadlines

module _ {D : Type 0} where
  unfoldable pub schedule_debounce : DebounceInput D → ℕ → Scheduler D → Scheduler D
  schedule_debounce input now s =
      let state =
        unwrap_or (lookup input.key s.states) (Debounce.new (trailing_conf input.window)) in
      let (pushed, state') = push input.payload now state in
      record {
        states = insert input.key state' s.states;
        deadlines = push_deadline input.key pushed.deadline s.deadlines;
      }

module _ {V D S Q : Type 0} (queue : Mpsc (ChannelEvent D) S) where
  abbrev deliver_some :
      DebounceKey
      → Option (PendingPayload D)
      → ℕ
      → SubscriptionRuntime V D S Q
      → SubscriptionRuntime V D S Q
  deliver_some key none now rt = rt
  deliver_some key (some payload) now rt = deliver_debounced queue key payload now rt

  -- The debouncer of a deadline that has come, if there is one, and what it lets go.
  abbrev fire :
      QueuedDeadline
      → List QueuedDeadline
      → ℕ
      → Scheduler D
      → SubscriptionRuntime V D S Q
      → Scheduler D × SubscriptionRuntime V D S Q
  fire q rest now s rt = elim (lookup q.key s.states) [
    | none ↦ (record s { deadlines = rest }, rt)
    | some state ↦
        let (payload, state') = due q.deadline.generation state in
        (
          record { states = insert q.key state' s.states; deadlines = rest },
          deliver_some q.key payload now rt,
        )
  ]

  unfoldable pub run_deadline :
      ℕ → Scheduler D → SubscriptionRuntime V D S Q → Scheduler D × SubscriptionRuntime V D S Q
  run_deadline now s rt = elim (pop now s.deadlines) [
    | none ↦ (s, rt)
    | some (q, rest) ↦ fire q rest now s rt
  ]

  deliver_some-Reach :
      (key : DebounceKey) (payload : Option (PendingPayload D)) (now : ℕ)
      (rt : SubscriptionRuntime V D S Q)
      → Reach queue rt (deliver_some key payload now rt)
  deliver_some-Reach key none now rt = Reach.started
  deliver_some-Reach key (some payload) now rt =
      Reach.next Reach.started (Step.delivered key payload now)

  fire-Reach :
      (q : QueuedDeadline) (rest : List QueuedDeadline) (now : ℕ) (s : Scheduler D)
      (rt : SubscriptionRuntime V D S Q)
      → Reach queue rt (fire q rest now s rt).1
  fire-Reach q rest now s rt = elim (Option-cases (lookup q.key s.states)) [
    | inl e ↦ rw (fire, e) Reach.started
    | inr (state, e) ↦ rw (fire, e) (deliver_some-Reach q.key _ now rt)
  ]

  -- A deadline that comes is a step of a run of the channels, or none.
  pub run_deadline-Reach :
      (now : ℕ) (s : Scheduler D) (rt : SubscriptionRuntime V D S Q)
      → Reach queue rt (run_deadline now s rt).1
  unfolding run_deadline
  run_deadline-Reach now s rt = elim (Option-cases (pop now s.deadlines)) [
    | inl e ↦ rw (run_deadline, e) Reach.started
    | inr ((q, rest), e) ↦ rw (run_deadline, e) (fire-Reach q rest now s rt)
  ]
