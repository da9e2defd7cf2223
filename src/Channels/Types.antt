-- ===== src/Channels/Types.antt =====
-- The data of channels: vyuh/src/channels/types.rs and fanout.rs.
use vyuh.Prelude.{
  ℕ, ◌+◌, ltb, leb, ◌==◌, ◌&&◌, ◌||◌, Bool, true, false, if◌then◌else◌, Option, [], ◌∷◌, ◌++◌,
  reverse, length, Key, ◌≡◌, refl, and_true,
}
use vyuh.Prelude.Maps.{KeyLaws}
use vyuh.Prelude.Int.{u64_max}
use vyuh.Prelude.Bytes.{Bytes, ascii, same_bytes, same_bytes_refl, same_bytes→eq}

pub data ChannelError : Type 0 where
  invalid_key : Bytes → ChannelError
  invalid_cursor : Bytes → ChannelError
  message_too_large : (maximum got : ℕ) → ChannelError
  backend_unavailable : ChannelError
  debounce_queue_full : ChannelError
  serialization : Bytes → ChannelError
  transport : Bytes → ChannelError
  transport_not_allowed : ChannelError
  subscription_unavailable : ChannelError
  missing_channel_key : ChannelError
  channel_limit_exceeded : (maximum : ℕ) → ChannelError

pub data ChannelResult {ℓ} (A : Type ℓ) : Type ℓ where
  ok : A → ChannelResult A
  err : ChannelError → ChannelResult A

infixl 5 ◌>>=◌
abbrev pub ◌>>=◌ {ℓ κ} :
    {A : Type ℓ} {B : Type κ} → ChannelResult A → (A → ChannelResult B) → ChannelResult B
ok a >>= f = f a
err e >>= f = err e

pub data SlowSubscriberPolicy : Type 0 where
  disconnect : SlowSubscriberPolicy

pub record ChannelConf : Type 0 where
  pub enabled : Bool
  pub subscriber_queue : ℕ
  pub replay_limit : ℕ
  pub retention_events : ℕ
  pub max_channels_per_user : ℕ
  pub max_message_bytes : ℕ
  pub long_poll_timeout_ms : ℕ
  pub sse_keepalive_ms : ℕ
  pub slow_subscriber_policy : SlowSubscriberPolicy

abbrev pub default_conf : ChannelConf
default_conf = record {
  enabled = true;
  subscriber_queue = 256;
  replay_limit = 256;
  retention_events = 10000;
  max_channels_per_user = 64;
  max_message_bytes = 1048576;
  long_poll_timeout_ms = 25000;
  sse_keepalive_ms = 15000;
  slow_subscriber_policy = SlowSubscriberPolicy.disconnect;
}

-- `chars().any(char::is_control)` on UTF-8: U+0000 to U+001F, and U+007F to U+009F, of which those
-- from U+0080 are written as 0xC2 and the byte itself.
abbrev any_control : Bytes → Bool
any_control [] = false
any_control (b ∷ []) = ltb b 32 || b == 127
any_control (b ∷ c ∷ bs) =
    ltb b 32 || b == 127 || (b == 194 && leb 128 c && leb c 159) || any_control (c ∷ bs)

abbrev pub validate_key : Bytes → Bytes → ChannelResult (Unit {0})
validate_key name [] = err (ChannelError.invalid_key (name ++ ascii " cannot be empty"))
validate_key name key =
    if ltb 512 (length key)
    then err (ChannelError.invalid_key (name ++ ascii " cannot exceed 512 bytes"))
    else if any_control key
    then err (ChannelError.invalid_key (name ++ ascii " cannot contain control characters"))
    else ok tt

abbrev pub user_key : Bytes → ChannelResult Bytes
user_key key = validate_key (ascii "user key") key >>= λ _. ok key

abbrev pub channel_key : Bytes → ChannelResult Bytes
channel_key key = validate_key (ascii "channel key") key >>= λ _. ok key

-- `trim_end_matches('/')` of the text whose bytes are given from the last to the first.
abbrev trim_slashes : Bytes → Bytes
trim_slashes [] = []
trim_slashes (b ∷ bs) = if b == 47 then trim_slashes bs else b ∷ bs

abbrev pub normalize_path : Bytes → Bytes
normalize_path path =
    if same_bytes path (ascii "/") then path else reverse (trim_slashes (reverse path))

module _ (blake3_hex : Bytes → Bytes) where
  -- The digest is of `vyuh.channel.beacon.v1`, the method, the name and the path, with a zero byte
  -- between each two.
  abbrev pub beacon : Bytes → Bytes → Bytes
  beacon name path =
      blake3_hex (
        ascii "vyuh.channel.beacon.v1"
        ++ 0 ∷ (ascii "GET" ++ 0 ∷ (name ++ 0 ∷ normalize_path path)))

  abbrev pub from_type_name : Bytes → Bytes
  from_type_name name = blake3_hex name

-- `fetch_add(1)` and `wrapping_add(1)` of a `u64`.
abbrev pub wrapping_suc : ℕ → ℕ
wrapping_suc n = if ltb n u64_max then n + 1 else 0

pub record ChannelEvent (D : Type 0) : Type 0 where
  pub id : ℕ
  pub event_type : Bytes
  pub data_ : D
  pub created_at : ℕ

-- The user's key and the channel's.
pub record ChannelTarget : Type 0 where
  pub user : Bytes
  pub channel : Bytes

abbrev pub same_target : ChannelTarget → ChannelTarget → Bool
same_target a b = same_bytes a.user b.user && same_bytes a.channel b.channel

pub same_target_refl : (t : ChannelTarget) → same_target t t ≡ true
same_target_refl t = rw (same_bytes_refl t.user, same_bytes_refl t.channel) refl

pub same_target→eq : (a b : ChannelTarget) → same_target a b ≡ true → a ≡ b
same_target→eq a b h =
    let (e, f) = and_true (same_bytes a.user b.user) (same_bytes a.channel b.channel) h in
    λ i. record {
      user = same_bytes→eq a.user b.user e i;
      channel = same_bytes→eq a.channel b.channel f i;
    }

instance abbrev pub target_key : Key ChannelTarget
target_key = record { same = same_target }

instance abbrev pub target_laws : KeyLaws ChannelTarget
target_laws = record { same_refl = same_target_refl; same→eq = same_target→eq }

-- A target as it was when it was chosen.
pub record DeliveryTarget : Type 0 where
  pub channel : ChannelTarget
  pub generation : ℕ

pub record DebounceKey : Type 0 where
  pub target : DeliveryTarget
  pub type_id : ℕ

pub record PendingPayload (D : Type 0) : Type 0 where
  pub event_type : Bytes
  pub data_ : D

pub record DebounceInput (D : Type 0) : Type 0 where
  pub key : DebounceKey
  pub window : ℕ
  pub payload : PendingPayload D

-- `V` is a signal's value (`dyn Any`), `D` its JSON.
pub record DeliveryRule (V : Type 0) : Type 0 where
  pub predicate : V → Bool
  pub debounce : Option ℕ

pub record SignalCodec (V D : Type 0) : Type 0 where
  pub type_id : ℕ
  pub decoder : D → ChannelResult V

pub record DeliverySpec (V D : Type 0) : Type 0 where
  pub type_id : ℕ
  pub signal_key : Bytes
  pub predicate : V → Bool
  pub decoder : D → ChannelResult V
  pub debounce : Option ℕ

pub record FanoutEnvelope : Type 0 where
  pub delivery_id : ℕ
  pub signal_key : Bytes
  pub event_type : Bytes
  pub created_at : ℕ
  pub payload : Bytes

-- What tokio's bounded queue answers to `try_send`.
pub data TrySend : Type 0 where
  sent full closed : TrySend

-- A bounded queue of messages `M`, as its sender sees it: `try_send` also moves its state.
pub record Mpsc (M S : Type 0) : Type 0 where
  pub channel : ℕ → S
  pub try_send : M → S → TrySend × S
