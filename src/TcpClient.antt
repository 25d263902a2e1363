-- ===== src/TcpClient.antt =====
-- TcpClient.h and TcpClient.cc: a client that connects, tries again every three seconds, and holds
-- its connection. It runs in the loop's thread. The use of a timer that is not there, of a callback
-- that is not set where the code does not ask, and faults of buffers are `none`.
pub mod Connects
pub mod Retries
mod Tests
use mathlib.Core.Option
use conex.Prelude.{
  ℕ, ◌*◌, Bool, true, false, Option, none, some, List, [], ◌∷◌, ◌++◌, map, ◌==◌, if◌then◌else◌,
  ◌>>=◌, ◌>>◌,
}
use conex.Buffer.{Buffer, Transfer, initial_size, make}
use conex.EPoller.{Epoll, update_channel}
use conex.Connector.{
  start as start_connector, handle_write as write_connector, destroy as destroy_connector,
  set_error_callback as set_connector_error, Connector, Notice, ConnectAnswer, make_connector,
  set_new_connection, error_callback, new_connection,
}
use conex.TcpConnection.{
  connected as connected_state, Step as ConnStep, ConnectionState, Connection, make_connection,
  connect_established, force_close, disconnected,
}
use conex.EventLoop.Timers.{run_every, cancel_in_loop}
use conex.TimerQueue.{TimerQueue, second}

-- What the user's callbacks are told: an error, or a connection in some state.
pub data Told : Type 0 where
  told_error : Told
  told_connection : ConnectionState → Told

-- The poller's kernel and the loop's timers are part of the state; `closed` is the descriptors that
-- were closed, and `retry_timer` is a pointer.
pub record TcpClient (K : Type 0) : Type 0 where
  pub connector : Connector
  pub connection : Option Connection
  pub connected : Bool
  pub retry_timer : ℕ
  pub has_connection_callback : Bool
  pub has_write_complete : Bool
  pub queue : TimerQueue
  pub kernel : K
  pub closed : List ℕ
  pub told : List Told

-- The constructor, on the descriptor of its first connector.
abbrev pub make_client : {K : Type 0} → ℕ → TimerQueue → K → TcpClient K
make_client fd queue kernel = record {
  connector = set_new_connection (make_connector fd);
  connection = none;
  connected = false;
  retry_timer = 0;
  has_connection_callback = false;
  has_write_complete = false;
  queue = queue;
  kernel = kernel;
  closed = [];
  told = [];
}

abbrev pub set_error_callback : {K : Type 0} → TcpClient K → TcpClient K
set_error_callback s = record s { connector = set_connector_error s.connector }

abbrev pub set_connection_callback : {K : Type 0} → TcpClient K → TcpClient K
set_connection_callback s = record s { has_connection_callback = true }

-- `connectionCallback_(conn)`, which throws where none is set.
abbrev pub call_connection : {K : Type 0} → ConnectionState → TcpClient K → Option (TcpClient K)
call_connection state s =
    if s.has_connection_callback
    then some (record s { told = s.told ++ told_connection state ∷ [] })
    else none

-- `closeConnection` is given the connection, which `handleClose` has set to disconnected.
unfoldable pub close_connection : {K : Type 0} → TcpClient K → Option (TcpClient K)
close_connection s = call_connection disconnected (record s { connection = none })

-- The time between two tries, and the number that stands for the callback `retry`.
abbrev pub retry_interval : ℕ
retry_interval = 3 * second

abbrev pub retry_callback : ℕ
retry_callback = 1

module _ (e : Epoll) where
  open e use {Kernel}

  abbrev Client : Type 0
  Client = TcpClient Kernel

  -- The connection of `newConnection`, with its callbacks.
  abbrev pub new_conn : ℕ → Bool → Buffer → Buffer → Connection
  new_conn fd completes input output =
      let conn = make_connection fd input output in
      (connect_established (record conn { has_write_complete = completes })).0

  -- `connectEstablished` makes the change of the channel known to the poller.
  unfoldable pub register : Connection → Client → Client
  register conn s =
      let (accepted, ch, k) = update_channel e conn.channel s.kernel in
      record s { connection = some (record conn { channel = ch }); kernel = k }

  unfoldable pub open_connection : ℕ → Client → Option Client
  open_connection fd s = do
    q ← cancel_in_loop s.retry_timer s.queue
    input ← make initial_size
    output ← make initial_size
    call_connection connected_state (
        register (new_conn fd s.has_write_complete input output)
          (record s { connected = true; queue = q; retry_timer = 0 }))

  -- What the connector calls.
  unfoldable pub hear : List Notice → Client → Option Client
  hear [] s = some s
  hear (error_callback ∷ rest) s = hear rest (record s { told = s.told ++ told_error ∷ [] })
  hear (new_connection fd ∷ rest) s = do s' ← open_connection fd s; hear rest s'

  -- A step of the connector, and what it calls.
  abbrev pub after_step : (Connector × List Notice) × Kernel → Client → Option Client
  after_step r s = hear r.0.1 (record s { connector = r.0.0; kernel = r.1 })

  unfoldable pub start : ConnectAnswer → Transfer ℕ → ℕ → Client → Option Client
  start answer sockopt now s = do
    s' ← after_step (start_connector e answer sockopt s.connector s.kernel) s
    let (p, q) = run_every now retry_interval retry_callback s'.queue
    some (record s' { queue = q; retry_timer = p })

  -- `retry` makes a new connector on a new descriptor.
  unfoldable pub retry : ConnectAnswer → Transfer ℕ → ℕ → Client → Option Client
  retry answer sockopt fd s =
      if s.connected
      then some s
      else (let c = set_new_connection (make_connector fd) in
          after_step (start_connector e answer sockopt c s.kernel)
            (record s { closed = s.closed ++ destroy_connector s.connector }))

  -- A write event of the connector's channel.
  unfoldable pub connect_event : Transfer ℕ → Client → Option Client
  connect_event sockopt s = after_step (write_connector e sockopt s.connector s.kernel) s

  -- The destructor: the connection after `forceClose`, with its effects, and the timers.
  unfoldable pub destroy : Client → Option (Option ConnStep × TimerQueue)
  destroy s = do
    q ← if s.retry_timer == 0 then some s.queue else cancel_in_loop s.retry_timer s.queue
    some (Option.map force_close s.connection, q)
