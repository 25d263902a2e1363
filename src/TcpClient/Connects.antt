-- ===== src/TcpClient/Connects.antt =====
-- From `start` to the connection.
use conex.Prelude.{
  ℕ, ◌+◌, ◌≡◌, refl, ap, ◌∙◌, Bool, true, Option, none, some, [], ◌∷◌, ◌++◌, arith, ==_refl, ◌>>=◌,
}
use conex.Buffer.{Buffer, initial_size, make, moved}
use conex.Buffer.Inv.{make_lem}
use conex.Channel.{read_event, change_events}
use conex.EPoller.{Epoll, choose_op, update_channel, change, remove_channel}
use conex.Connector.{
  start as start_connector, handle_write as write_connector, einprogress, report, fails,
}
use conex.Connector.Start.{new_connector, in_progress_lem}
use conex.TcpConnection.{connected as connected_state, Connection, connect_established}
use conex.TimerQueue.{TimerQueue, store, add_timer, cancel_timer}
use conex.TimerQueue.Cancel.{AllBelow, cancel_timer-add_timer}
use conex.TcpClient.{
  TcpClient, make_client, retry_interval, retry_callback, new_conn, register, open_connection, hear,
  start, connect_event, told_connection,
}

-- A new client with a connection callback, and perhaps others.
abbrev pub new_client : {K : Type 0} → ℕ → Bool → Bool → TimerQueue → K → TcpClient K
new_client fd errors completes queue kernel = record (make_client fd queue kernel) {
  connector = new_connector fd errors;
  has_connection_callback = true;
  has_write_complete = completes;
}

unfoldable pub new_buffer : Buffer
new_buffer = (make_lem initial_size (omega arith)).0

make-new_buffer : make initial_size ≡ some new_buffer
unfolding new_buffer
make-new_buffer = (make_lem initial_size (omega arith)).1

module _ (e : Epoll) where
  open e use {Kernel, interest, epoll_ctl, add_absent, mod_present, del_present}

  -- What `newConnection` leaves.
  unfoldable pub opened : ℕ → TimerQueue → TcpClient Kernel → TcpClient Kernel
  opened fd q s =
      let s' = record s { connected = true; queue = q; retry_timer = 0 } in
      let s'' = register e (new_conn e fd s.has_write_complete new_buffer new_buffer) s' in
      record s'' { told = s''.told ++ told_connection connected_state ∷ [] }

  pub open_connection-opened :
      (fd : ℕ) (q : TimerQueue) (s : TcpClient Kernel)
      → cancel_timer s.retry_timer s.queue ≡ some q
      → s.has_connection_callback ≡ true
      → open_connection e fd s ≡ some (opened fd q s)
  unfolding open_connection opened register
  open_connection-opened fd q s c h = rw (c, make-new_buffer) (rw h refl)

  -- A client that has its connection, and no timer.
  pub record Connected (fd : ℕ) (q : TimerQueue) (r : Option (TcpClient Kernel)) : Type 0 where
    pub client : TcpClient Kernel
    pub conn : Connection
    pub returns : r ≡ some client
    pub is_connected : client.connected ≡ true
    pub told_is : client.told ≡ told_connection connected_state ∷ []
    pub connection_is : client.connection ≡ some conn
    pub state_is : conn.state ≡ connected_state
    pub watched : interest client.kernel fd ≡ some read_event
    pub no_retry : client.retry_timer ≡ 0
    pub timers_are : client.queue.timers ≡ q.timers
    pub timer_gone : client.queue.heap q.next_pointer ≡ none

  -- The client while `connect` is in progress.
  waiting_client : ℕ → TcpClient Kernel → TcpClient Kernel
  waiting_client now s =
      let ((c, notices), k) =
        start_connector e (fails einprogress) (moved 0) s.connector s.kernel in
      let (p, q) = add_timer retry_callback (now + retry_interval) retry_interval s.queue in
      record s { connector = c; kernel = k; queue = q; retry_timer = p }

  start-waiting_client :
      (fd now : ℕ) (errors completes : Bool) (q : TimerQueue) (k : Kernel)
      → start e (fails einprogress) (moved 0) now (new_client fd errors completes q k)
        ≡ some (waiting_client now (new_client fd errors completes q k))
  unfolding start waiting_client hear start_connector
  start-waiting_client fd now errors completes q k = refl

  -- A new client whose `connect` is in progress, and whose socket then becomes writable with no
  -- error: it has a connection, established, that the kernel watches, the user is told of it once,
  -- and the timer for another try is gone.
  pub connects_lem :
      (fd now : ℕ) (errors completes : Bool) (q : TimerQueue) (k : Kernel)
      → interest k fd ≡ none
      → AllBelow q.next_pointer q.timers
      → Connected fd q (do
        s ← start e (fails einprogress) (moved 0) now (new_client fd errors completes q k)
        connect_event e (moved 0) s)
  unfolding connect_event hear register opened waiting_client start_connector write_connector
      remove_channel change update_channel choose_op change_events report add_timer
      connect_established
  connects_lem fd now errors completes q k h below =
      let p = in_progress_lem e fd errors k (moved 0) h in
      let t = cancel_timer-add_timer retry_callback (now + retry_interval) retry_interval q below in
      let w = waiting_client now (new_client fd errors completes q k) in
      let r = write_connector e (moved 0) w.connector w.kernel in
      let w' = record w { connector = r.0.0; kernel = r.1 } in
      let q' = record w.queue {
        timers = q.timers;
        heap = store q.next_pointer none w.queue.heap;
      } in
      let s = opened fd q' w' in
      let conn = new_conn e fd completes new_buffer new_buffer in
      record {
        client = s;
        conn = record conn { channel = (update_channel e conn.channel w'.kernel).1 };
        returns =
            ap (λ m. m >>= connect_event e (moved 0))
              (start-waiting_client fd now errors completes q k)
            ∙ ap (λ m. m >>= λ c. some c) (open_connection-opened fd q' w' t.1 refl);
        is_connected = refl;
        told_is = refl;
        connection_is = refl;
        state_is = refl;
        watched = p.6;
        no_retry = refl;
        timers_are = refl;
        timer_gone = rw (==_refl q.next_pointer) refl;
      }
