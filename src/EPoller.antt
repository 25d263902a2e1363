-- ===== src/EPoller.antt =====
-- EPoller.cc: the bookkeeping between a channel and the kernel's interest list, and the list of
-- active channels. The kernel is a parameter: `epoll_ctl` answers whether it accepted a call.
pub mod Registration
pub mod Table
mod Tests
use conex.Prelude.{
  ℕ, ◌*◌, ◌≡◌, Bool, true, false, not, ◌&&◌, Option, none, some, List, [], ◌∷◌, ◌++◌, ltb, ◌==◌,
  if◌then◌else◌, length,
}
use conex.Channel.{Mask, Channel, Change, is_none_event, change_events, disable_all}

pub data Op : Type 0 where
  op_add op_mod op_del : Op

-- The choice that `updateChannel(channel)` makes, and the channel after it.
unfoldable pub choose_op : Channel → Op × Channel
choose_op c =
    if not c.pooling
    then (op_add, record c { pooling = true })
    else if not (is_none_event c)
    then (op_mod, c)
    else (op_del, record c { pooling = false })

-- What the code relies on of `epoll_ctl` (man 2 epoll_ctl): a descriptor can be added once, and
-- changed or removed while it is there; a call that is refused changes nothing.
pub record Epoll : Type 1 where
  pub Kernel : Type 0
  pub interest : Kernel → ℕ → Option Mask
  pub epoll_ctl : Op → ℕ → Mask → Kernel → Bool × Kernel
  pub add_absent :
      (fd : ℕ) (m : Mask) (k : Kernel)
      → interest k fd ≡ none
      → ((epoll_ctl op_add fd m k).0 ≡ true) × (interest (epoll_ctl op_add fd m k).1 fd ≡ some m)
  pub add_present :
      (fd : ℕ) (m old : Mask) (k : Kernel)
      → interest k fd ≡ some old
      → epoll_ctl op_add fd m k ≡ (false, k)
  pub mod_present :
      (fd : ℕ) (m old : Mask) (k : Kernel)
      → interest k fd ≡ some old
      → ((epoll_ctl op_mod fd m k).0 ≡ true) × (interest (epoll_ctl op_mod fd m k).1 fd ≡ some m)
  pub del_present :
      (fd : ℕ) (m old : Mask) (k : Kernel)
      → interest k fd ≡ some old
      → ((epoll_ctl op_del fd m k).0 ≡ true) × (interest (epoll_ctl op_del fd m k).1 fd ≡ none)

module _ (e : Epoll) where
  open e use {Kernel, epoll_ctl}

  -- `updateChannel`: the flag is the kernel's answer, which the code only looks at to log.
  unfoldable pub update_channel : Channel → Kernel → Bool × Channel × Kernel
  update_channel c k =
      let (op, c') = choose_op c in
      let (accepted, k') = epoll_ctl op c'.fd c'.events k in (accepted, c', k')

  -- One of the five functions of a channel: the change and `update()`.
  unfoldable pub change : Change → Channel → Kernel → Bool × Channel × Kernel
  unfolding update_channel
  change ch c k = update_channel (change_events ch c) k

  -- `EventLoop::updateChannel` passes on to the poller, and `removeChannel` is `disableAll`.
  unfoldable pub remove_channel : Channel → Kernel → Bool × Channel × Kernel
  unfolding change
  remove_channel c k = change disable_all c k

  -- A history of such calls on one channel, with the answers of the kernel.
  unfoldable pub changes : List Change → Channel → Kernel → List Bool × Channel × Kernel
  changes [] c k = ([], c, k)
  changes (ch ∷ chs) c k =
      let (a, c', k') = change ch c k in
      let (as', c'', k'') = changes chs c' k' in (a ∷ as', c'', k'')

-- `poll`: the kernel answers with an error or with events for channels. The list that it writes
-- to is doubled when it came back full; the active channels are those reported, in that order.
pub record Polled : Type 0 where
  pub size : ℕ
  pub active : List (ℕ × Mask)

abbrev pub initial_list_size : ℕ
initial_list_size = 16

unfoldable pub poll : Option (List (ℕ × Mask)) → ℕ → List (ℕ × Mask) → Polled
poll none size active = record { size = size; active = active }
poll (some events) size active = record {
  size = if length events == size && ltb 0 (length events) then 2 * size else size;
  active = active ++ events;
}
