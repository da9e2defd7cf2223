-- ===== src/Examples/Streams.antt =====
-- Concrete runs of channels: a user with one channel, to whom numbers are published, of which the even
-- ones are taken at once and those of another type after a window.
use vyuh.Prelude.{
  ℕ, ◌≤◌, ltb, ◌==◌, true, false, if◌then◌else◌, ◌≡◌, refl, subst, sym, none, some, Option, List,
  [], ◌∷◌, ◌++◌, length, take, filter, unwrap_or, arith,
}
use vyuh.Prelude.Bytes.{ascii}
use vyuh.Channels.Types.{
  ChannelConf, ChannelResult, ok, default_conf, ChannelEvent, ChannelTarget, DeliverySpec,
  DebounceInput, PendingPayload, TrySend, Mpsc,
}
use vyuh.Channels.Log.{append, after}
use vyuh.Channels.Log.Newest.{append_all, newest, append_all-newest}
use vyuh.Channels.Fanout.{no_deliveries, fanout_dedup_limit, seen_or_insert}
use vyuh.Channels.Fanout.Recent.{feed, seen_or_insert-again}
use vyuh.Channels.Debounce.{DebounceMode}
use vyuh.Channels.Debounce.Quiet.{play, quiet, play-promised}
use vyuh.Channels.State.{replace_policy, append_event, ChannelState, channel_at, default_channel}
use vyuh.Channels.State.Indexed.{Indexed}
use vyuh.Channels.Runtime.{SubscriptionRuntime, new, open_user}
use vyuh.Channels.Publish.{
  Json, publish_signal, publish_value, candidates_any, validate_payload_size,
}
use vyuh.Channels.Runtime.Sound.{Sound}
use vyuh.Channels.Runtime.Reach.{Reach, Step, Reach-Sound}
use vyuh.Channels.Runtime.Limit.{too_many, Answered, open_user-Answered}
use vyuh.Channels.Publish.Delivery.{Published, event_of, publish_signal-Published}

-- A queue with its bound.
abbrev bounded_queue : {M : Type 0} → Mpsc M (ℕ × List M)
bounded_queue = record {
  channel = λ n. (n, []);
  try_send = λ m q.
      if ltb (length q.1) q.0 then (TrySend.sent, (q.0, q.1 ++ m ∷ [])) else (TrySend.full, q);
}

abbrev numbers : Json ℕ ℕ
numbers = record { to_value = λ n. ok n; to_vec = λ n. ok (n ∷ []); from_str = λ b. ok (length b) }

abbrev event : ℕ → ChannelEvent ℕ
event n = record { id = n; event_type = ascii "number"; data_ = n; created_at = 5 }

abbrev Events : Type 0
Events = ℕ × List (ChannelEvent ℕ)

abbrev Inputs : Type 0
Inputs = ℕ × List (DebounceInput ℕ)

abbrev seven_only : DeliverySpec ℕ ℕ
seven_only = record {
  type_id = 1;
  signal_key = ascii "number";
  predicate = λ n. n == 7;
  decoder = λ d. ok d;
  debounce = none;
}

abbrev started : SubscriptionRuntime ℕ ℕ Events Inputs
started = new bounded_queue bounded_queue default_conf []

abbrev home : ChannelTarget
home = record { user = ascii "ann"; channel = ascii "home" }

abbrev opened : SubscriptionRuntime ℕ ℕ Events Inputs
opened = (open_user bounded_queue home.user home.channel (seven_only ∷ []) none started).1

abbrev three_events : List (ChannelEvent ℕ)
three_events = event 1 ∷ event 2 ∷ event 3 ∷ []

append_all-newest_example :
    (append_all 2 three_events [] ≡ newest 2 three_events)
    × (after 2 5 (append_all 2 three_events [])
        ≡ take 5 (filter (λ e. ltb 2 e.id) (newest 2 three_events)))
    × (length (append_all 2 three_events []) ≤ 2)
append_all-newest_example = append_all-newest 2 2 5 three_events

fresh : (seen_or_insert 4 (feed (1 ∷ []) no_deliveries)).0 ≡ false
unfolding seen_or_insert
fresh = refl

-- Two publications append in the other order than they took their ids: a client that saw the second id
-- is not sent the first.
overtaken_run : after 2 10 (append (event 1) 10 (append (event 2) 10 [])) ≡ []
unfolding after append
overtaken_run = refl

seen_or_insert-again_example :
    ((seen_or_insert 4 (feed (5 ∷ []) (seen_or_insert 4 (feed (1 ∷ []) no_deliveries)).1)).0 ≡ true)
    × (length (feed (5 ∷ []) (seen_or_insert 4 (feed (1 ∷ []) no_deliveries)).1).ids
        ≤ fanout_dedup_limit)
seen_or_insert-again_example = seen_or_insert-again (1 ∷ []) (5 ∷ []) 4 (omega arith) fresh

abbrev burst : List (ℕ × ℕ)
burst = (8, 12) ∷ (9, 15) ∷ []

play-promised_example :
    let run = play [] ((7, 10) ∷ burst) (quiet DebounceMode.trailing 10 0) in
    run ≡ ((9, 25) ∷ [], quiet DebounceMode.trailing 10 run.1.generation)
play-promised_example =
    play-promised DebounceMode.trailing 10 0 (7, 10) burst
      ((omega arith), (omega arith), ((omega arith), (omega arith), tt)) (omega arith)

Reach-Sound_example : (opened.conf ≡ default_conf) × Sound default_conf opened.state
Reach-Sound_example =
    Reach-Sound bounded_queue bounded_queue default_conf [] opened
      (Reach.next Reach.started (Step.opened home.user home.channel (seven_only ∷ []) none))

abbrev payload : PendingPayload ℕ
payload = record { event_type = ascii "number"; data_ = 7 }

abbrev home_channel : ChannelState ℕ ℕ Events
home_channel = unwrap_or (channel_at home opened.state) default_channel

-- Home is opened three times more.
abbrev more : List (List (DeliverySpec ℕ ℕ) × Option ℕ)
more = (seven_only ∷ [], some 3) ∷ ([], none) ∷ (seven_only ∷ [], none) ∷ []

opened-Indexed : Indexed opened.state
opened-Indexed = Reach-Sound_example.1.indexed

abbrev sent : ChannelResult (Unit {0}) × SubscriptionRuntime ℕ ℕ Events Inputs
sent = publish_signal bounded_queue bounded_queue numbers 1 (ascii "number") 7 30 opened

all_sent : sent.0 ≡ ok tt
unfolding publish_signal publish_value open_user replace_policy candidates_any append_event
all_sent = refl

small : validate_payload_size numbers 7 opened ≡ ok tt
unfolding open_user replace_policy
small = refl

publish_signal-Published_example : Published 1 7 (event_of payload 30 opened) opened sent.1
publish_signal-Published_example =
    publish_signal-Published bounded_queue bounded_queue numbers 1 (ascii "number") 7 7 30 opened
      opened-Indexed refl small all_sent

-- A user who may have one channel asks for another.
abbrev narrow : ChannelConf
narrow = record default_conf { max_channels_per_user = 1 }

abbrev crowded : SubscriptionRuntime ℕ ℕ Events Inputs
crowded =
    (open_user bounded_queue home.user home.channel (seven_only ∷ []) none
      (new bounded_queue bounded_queue narrow [])).1

crowded-Sound : (crowded.conf ≡ narrow) × Sound narrow crowded.state
crowded-Sound =
    Reach-Sound bounded_queue bounded_queue narrow [] crowded
      (Reach.next Reach.started (Step.opened home.user home.channel (seven_only ∷ []) none))

abbrev work : ChannelTarget
work = record { user = ascii "ann"; channel = ascii "work" }

refused_run : too_many 1 work crowded.state ≡ true
unfolding open_user replace_policy
refused_run = refl

open_user-Answered_example :
    Answered bounded_queue
      (too_many crowded.conf.max_channels_per_user work crowded.state)
      crowded
      (open_user bounded_queue work.user work.channel [] none crowded)
open_user-Answered_example =
    open_user-Answered bounded_queue work [] none crowded
      (subst (λ c. Sound c crowded.state) (sym crowded-Sound.0) crowded-Sound.1)
