-- ===== src/Acceptor.antt =====
-- Acceptor.h and Acceptor.cc: a socket that listens, and what it does with the answer of `accept4`.
-- An address is a number.
use conex.Channel.{Channel, make_channel, enable_reading}
use conex.EPoller.{Epoll, change}
use conex.Prelude.{ℕ, Bool, Option, none, some, ℤ, pos, negsuc}

-- The constructor, on the descriptor that `socket` gave, and the descriptor that the destructor
-- closes.
pub record Acceptor : Type 0 where
  pub accept_fd : ℕ
  pub accept_channel : Channel

abbrev pub make_acceptor : ℕ → Acceptor
make_acceptor fd = record { accept_fd = fd; accept_channel = make_channel fd }

abbrev pub destroy : Acceptor → ℕ
destroy a = a.accept_fd

-- `listen`, after the call of the system: the answer of the poller's kernel comes first.
abbrev pub listen : (e : Epoll) → Acceptor → e.Kernel → Bool × Acceptor × e.Kernel
listen e a k =
    let (accepted, ch, k') = change e enable_reading a.accept_channel k in
    (accepted, record a { accept_channel = ch }, k')

-- `accept4` answers an error number, or a descriptor and the address of its peer.
pub data Accepted : Type 0 where
  refused : ℕ → Accepted
  accepted : ℕ → ℕ → Accepted

-- `connfd`, and `peerAddr`, which holds whatever it did if the call fails.
abbrev pub connfd : Accepted → ℤ
connfd (refused e) = negsuc 0
connfd (accepted fd peer) = pos fd

abbrev pub peer_addr : ℕ → Accepted → ℕ
peer_addr stale (refused e) = stale
peer_addr stale (accepted fd peer) = peer

module _ {S : Type 0} where
  -- `handleRead` on the callback, the local address and what stood in `peerAddr`. The result has
  -- the descriptor that was closed, if one was.
  unfoldable pub handle_read : Option (ℤ → ℕ → ℕ → S → S) → ℕ → ℕ → Accepted → S → S × Option ℤ
  handle_read none local stale answer s = (s, some (connfd answer))
  handle_read (some callback) local stale answer s =
      (callback (connfd answer) local (peer_addr stale answer) s, none)
