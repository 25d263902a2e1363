-- ===== src/TcpServerSingle.antt =====
-- TcpServerSingle.h and TcpServerSingle.cc: the set of connections of one acceptor. A connection is
-- known by its pointer, a number that is not given out again.
pub mod Connections
mod Tests
use conex.Prelude.{ℕ, suc, some, List, [], ◌∷◌, ◌++◌, ◌==◌, if◌then◌else◌, ℤ}
use conex.Acceptor.{Accepted, handle_read}

pub record ServerConnection : Type 0 where
  pub pointer : ℕ
  pub sockfd : ℤ
  pub local : ℕ
  pub peer : ℕ

-- A call of the connection callback, once the connection is established and once it is closed.
pub data Report : Type 0 where
  is_up is_down : ℕ → Report

pub record TcpServerSingle : Type 0 where
  pub connections : List ServerConnection
  pub next_pointer : ℕ
  pub reports : List Report

abbrev pub make_server : TcpServerSingle
make_server = record { connections = []; next_pointer = 1; reports = [] }

unfoldable pub new_connection : ℤ → ℕ → ℕ → TcpServerSingle → TcpServerSingle
new_connection fd local peer s = record {
  connections =
      s.connections
      ++ (record { pointer = s.next_pointer; sockfd = fd; local = local; peer = peer }) ∷ [];
  next_pointer = suc s.next_pointer;
  reports = s.reports ++ is_up s.next_pointer ∷ [];
}

unfoldable pub erase_connection : ℕ → List ServerConnection → List ServerConnection
erase_connection p [] = []
erase_connection p (c ∷ cs) =
    let rest = erase_connection p cs in if c.pointer == p then rest else c ∷ rest

unfoldable pub close_connection : ℕ → TcpServerSingle → TcpServerSingle
close_connection p s = record s {
  connections = erase_connection p s.connections;
  reports = s.reports ++ is_down p ∷ [];
}

-- The constructor binds `newConnection` to the placeholders _1, _2 and _2.
unfoldable pub on_new_connection : ℤ → ℕ → ℕ → TcpServerSingle → TcpServerSingle
on_new_connection fd local peer s = new_connection fd local local s

-- What the loop brings to the server: an answer of `accept4`, with what stood in the place of the
-- address, or the close of a connection.
pub data Event : Type 0 where
  accepts : ℕ → Accepted → Event
  closes : ℕ → Event

unfoldable pub on_event : ℕ → Event → TcpServerSingle → TcpServerSingle
on_event local (accepts stale answer) s =
    (handle_read (some on_new_connection) local stale answer s).0
on_event local (closes p) s = close_connection p s

unfoldable pub on_events : ℕ → List Event → TcpServerSingle → TcpServerSingle
on_events local [] s = s
on_events local (e ∷ es) s = on_events local es (on_event local e s)
