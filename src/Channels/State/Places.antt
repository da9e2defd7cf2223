-- ===== src/Channels/State/Places.antt =====
-- Where the state of a channel stands: vyuh/src/channels/runtime.rs.
use vyuh.Prelude.{
  ◌≡◌, refl, sym, ap, ◌∙◌, inl, inr, Bool-cases, if◌then◌else◌, some, [], lookup, insert, unwrap_or,
}
use vyuh.Prelude.Bytes.{Bytes, bytes_key, same_bytes, same_bytes→eq, bytes_laws, lookup-insert}
use vyuh.Channels.Types.{ChannelTarget, same_target}
use vyuh.Channels.State.{ChannelState, LocalChannelState, channels_of, channel_at, put_channel}

module _ {V D S : Type 0} where
  pub channels_of-put :
      (target : ChannelTarget) (c : ChannelState V D S) (s : LocalChannelState V D S) (user : Bytes)
      → channels_of user (put_channel target c s) ≡ (
          if same_bytes target.user user
          then insert target.channel c (channels_of target.user s)
          else channels_of user s)
  channels_of-put target c s user =
      let own = insert target.channel c (channels_of target.user s) in
      ap (λ o. unwrap_or o []) (lookup-insert target.user user own s.users)
      ∙ elim (Bool-cases (same_bytes target.user user)) [ inl e ↦ rw e refl | inr e ↦ rw e refl ]

  pub channel_at-put :
      (target other : ChannelTarget) (c : ChannelState V D S) (s : LocalChannelState V D S)
      → channel_at other (put_channel target c s)
        ≡ (if same_target target other then some c else channel_at other s)
  channel_at-put target other c s = elim (Bool-cases (same_bytes target.user other.user)) [
    | inl e ↦
        ap (lookup other.channel) (channels_of-put target c s other.user)
        ∙ rw (e, sym (same_bytes→eq target.user other.user e))
            (lookup-insert target.channel other.channel c (channels_of target.user s))
    | inr e ↦ ap (lookup other.channel) (channels_of-put target c s other.user) ∙ rw e refl
  ]
