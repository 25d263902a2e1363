-- ===== src/Connector.antt =====
-- Connector.h and Connector.cc: the socket that connects, and its channel while it does. The answers
-- of `connect` and `getsockopt` are arguments, and so is the kernel of the poller. What the
-- connector calls comes out as a list, in order.
pub mod Start
mod Tests
use conex.Prelude.{ℕ, Bool, true, false, not, List, [], ◌∷◌, ◌==◌, if◌then◌else◌}
use conex.Buffer.{Transfer, failed, moved}
use conex.Channel.{Channel, make_channel, enable_writing}
use conex.EPoller.{Epoll, change, remove_channel}

pub record Connector : Type 0 where
  pub sockfd : ℕ
  pub channel : Channel
  pub connected : Bool
  pub started : Bool
  pub has_new_connection : Bool
  pub has_error_callback : Bool

-- The constructor, on the descriptor that `socket` gave.
abbrev pub make_connector : ℕ → Connector
make_connector fd = record {
  sockfd = fd;
  channel = make_channel fd;
  connected = false;
  started = false;
  has_new_connection = false;
  has_error_callback = false;
}

-- The descriptors that the destructor closes.
abbrev pub destroy : Connector → List ℕ
destroy c = if not c.connected then c.sockfd ∷ [] else []

abbrev pub set_new_connection : Connector → Connector
set_new_connection c = record c { has_new_connection = true }

abbrev pub set_error_callback : Connector → Connector
set_error_callback c = record c { has_error_callback = true }

pub data Notice : Type 0 where
  error_callback : Notice
  new_connection : ℕ → Notice

-- `connect` succeeds at once, or fails with an error number.
pub data ConnectAnswer : Type 0 where
  connects : ConnectAnswer
  fails : ℕ → ConnectAnswer

abbrev pub einprogress : ℕ
einprogress = 115

-- `errno` after `getsockopt` and the assignment of what it reported.
abbrev pub errno_after : Transfer ℕ → ℕ
errno_after (moved err) = err
errno_after (failed e) = e

-- `handleWrite` behind the removal of the channel.
unfoldable pub report : Transfer ℕ → Connector → Connector × List Notice
report sockopt c =
    if not (errno_after sockopt == 0)
    then (c, if c.has_error_callback then error_callback ∷ [] else [])
    else if c.has_new_connection
    then (record c { connected = true }, new_connection c.sockfd ∷ [])
    else (c, [])

module _ (e : Epoll) where
  open e use {Kernel}

  abbrev pub Step : Type 0
  Step = (Connector × List Notice) × Kernel

  unfoldable pub handle_write : Transfer ℕ → Connector → Kernel → Step
  handle_write sockopt c k =
      let (accepted, ch, k') = remove_channel e c.channel k in
      (report sockopt (record c { channel = ch }), k')

  unfoldable pub start : ConnectAnswer → Transfer ℕ → Connector → Kernel → Step
  start connects sockopt c k = handle_write sockopt (record c { started = true }) k
  start (fails err) sockopt c k =
      if err == einprogress
      then (let (accepted, ch, k') = change e enable_writing c.channel k in
          ((record c { started = true; channel = ch }, []), k'))
      else handle_write sockopt (record c { started = true }) k
