-- ===== src/TcpConnection/Watched.antt =====
-- A connection and the poller: what the kernel watches for while output waits.
use conex.EPoller.{Epoll, update_channel}
use conex.EPoller.Registration.{InSync}
use conex.Prelude.{ℕ, ◌<◌, ◌≡◌, true, false, Option, none, some, List, [], ◌∷◌, ◌>>=◌}
use conex.Channel.{Mask, Channel, Change, make_channel, is_none_event}
use conex.Buffer.{readable_bytes}
use conex.TcpConnection.{Connection, is_disconnected, connect_established}
use conex.TcpConnection.Lifecycle.{Call, run_call}
use conex.Channel.Dispatch.{calls}
use conex.Buffer.Inv.{IsValid}
use conex.TcpConnection.Changes.{changes_of}
use conex.TcpConnection.Pending.{IsPending, RoomFor}

module _ (e : Epoll) where
  open e use {Kernel, interest}

  -- The changes reach the poller, which is where a call makes them.
  unfoldable pub poll_changes : List Change → Connection → Kernel → Connection × Kernel
  poll_changes [] c k = (c, k)
  poll_changes (ch ∷ chs) c k =
      let (accepted, channel, k') = update_channel e c.channel k in
      poll_changes chs (record c { channel = channel }) k'

  unfoldable pub watched_call : Call → Connection × Kernel → Option (Connection × Kernel)
  watched_call call (c, k) = do
    (c', effects) ← run_call call c
    some (poll_changes (changes_of effects) c' k)

  unfoldable pub watched_calls : List Call → Connection × Kernel → Option (Connection × Kernel)
  watched_calls [] s = some s
  watched_calls (call ∷ calls) s = watched_call call s >>= watched_calls calls

  -- A channel that the kernel knows has events, and the other way round.
  pub record IsPolled (ch : Channel) (k : Kernel) : Type 0 where
    pub in_sync : InSync e ch k
    pub pooled : ch.pooling ≡ false → is_none_event ch ≡ true

  pub record IsWatched (s : Connection × Kernel) : Type 0 where
    pub pending : IsPending s.0
    pub polled : IsPolled s.0.channel s.1

  abbrev pub OnPair : (Connection × Kernel → Type 0) → Option (Connection × Kernel) → Type 0
  OnPair P none = ⊥
  OnPair P (some s) = P s

  -- Each call has what it relies on.
  abbrev pub Fits : List Call → Connection × Kernel → Type 0
  Fits [] s = Unit {0}
  Fits (call ∷ calls) s = RoomFor call s.0 × OnPair (Fits calls) (watched_call call s)

  -- What the kernel watches for.
  pub record Watches (s : Connection × Kernel) : Type 0 where
    pub for_output :
        is_disconnected s.0 ≡ false
        → 0 < readable_bytes s.0.output_buffer
        → (m : Mask) × (interest s.1 s.0.channel.fd ≡ some m) × (m.epollout ≡ true)
    pub for_nothing :
        is_disconnected s.0 ≡ false
        → readable_bytes s.0.output_buffer ≡ 0
        → (m : Mask) → interest s.1 s.0.channel.fd ≡ some m
        → m.epollout ≡ false

  -- `connectEstablished`, whose change reaches the poller.
  unfoldable pub establish : Connection → Kernel → Connection × Kernel
  establish c k =
      let (c', effects) = connect_established c in poll_changes (changes_of effects) c' k

  -- A connection as its constructor leaves it, up to the callbacks that are set.
  pub record IsNew (c : Connection) : Type 0 where
    pub new_channel : (fd : ℕ) × (c.channel ≡ make_channel fd)
    pub new_input : IsValid c.input_buffer
    pub new_output : IsValid c.output_buffer
    pub nothing_waits : readable_bytes c.output_buffer ≡ 0
