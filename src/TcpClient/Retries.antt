-- ===== src/TcpClient/Retries.antt =====
-- Further tries, and their ends.
use conex.Prelude.{
  ℕ, ◌≡◌, refl, ap, ◌≢◌, Bool, true, false, none, some, List, [], ◌∷◌, ◌++◌, ==_false, ◌>>=◌,
}
use conex.Buffer.{moved}
use conex.EPoller.{Epoll, remove_channel}
use conex.Connector.{
  start as start_connector, handle_write as write_connector, destroy as destroy_connector,
  einprogress, report, connects, fails,
}
use conex.TcpConnection.{
  Connection, is_disconnected, handle_close, force_close, force_close_in_loop, disconnecting,
  update, queue_force_close, close_callback,
}
use conex.TimerQueue.{
  Timer, TimerQueue, Operation, store, erase_entry, add_timer, cancel_timer, run_operations, fire,
  cancels,
}
use conex.TimerQueue.Fire.{self_cancel}
use conex.TcpClient.{
  Told, TcpClient, register, open_connection, hear, start, retry, connect_event, destroy,
  told_error,
}
use conex.TcpClient.Connects.{new_client, opened, open_connection-opened}
use conex.Connector.Start.{new_connector}
use conex.TimerQueue.Cancel.{cancel_timer-some}
use conex.Channel.{disable_all}

-- What its user has heard, whether it is connected, its timer, and the descriptors that were closed.
abbrev pub seen : {K : Type 0} → TcpClient K → List Told × Bool × ℕ × List ℕ
seen s = (s.told, s.connected, s.retry_timer, s.closed)

module _ (e : Epoll) where
  open e use {Kernel}

  -- When `connect` succeeds at once in the `start` of a new client, `newConnection` cancels the timer
  -- for another try, and there is none yet: it uses a null pointer.
  pub start_at_once_lem :
      (fd now : ℕ) (errors completes : Bool) (q : TimerQueue) (k : Kernel)
      → q.heap 0 ≡ none
      → start e connects (moved 0) now (new_client fd errors completes q k) ≡ none
  unfolding start hear open_connection start_connector write_connector report cancel_timer
  start_at_once_lem fd now errors completes q k h = rw h refl

  -- A new client with an error callback whose first try fails with an error of the socket, and the
  -- second one too: the user is told once. `retry` makes a new connector, which has no error
  -- callback.
  pub errors_lem :
      (fd fd' now err err' : ℕ) (completes : Bool) (q : TimerQueue) (k : Kernel)
      → err ≢ 0
      → err' ≢ 0
      → (do
        s1 ← start e (fails einprogress) (moved 0) now (new_client fd true completes q k)
        s2 ← connect_event e (moved err) s1
        s3 ← retry e (fails einprogress) (moved 0) fd' s2
        s ← connect_event e (moved err') s3
        some (seen s))
        ≡ some (told_error ∷ [], false, q.next_pointer, fd ∷ [])
  unfolding start connect_event retry hear start_connector write_connector remove_channel report
      add_timer
  errors_lem fd fd' now err err' completes q k h h' = rw (==_false err 0 h, ==_false err' 0 h') refl

  -- When `connect` succeeds at once in a try that the timer runs, `newConnection` cancels that very
  -- timer, and does nothing else to the queue: the queue uses the timer once more after its callback,
  -- and it has been deleted.
  pub retry_at_once_lem :
      (fd : ℕ) (s : TcpClient Kernel) (t : Timer)
      → s.connected ≡ false
      → s.has_connection_callback ≡ true
      → s.queue.heap s.retry_timer ≡ some t
      → t.canceled ≡ false
      → ((s' : TcpClient Kernel) × (retry e connects (moved 0) fd s ≡ some s')
          × (run_operations (cancels s.retry_timer ∷ []) s.queue ≡ some s'.queue))
        × ((code : ℕ → List Operation)
            → code t.callback ≡ cancels s.retry_timer ∷ []
            → fire code (t.when_at, s.retry_timer) s.queue ≡ none)
  unfolding retry hear start_connector write_connector report opened register run_operations
      open_connection
  retry_at_once_lem fd s t n c live ok =
      let p = s.retry_timer in
      let r = start_connector e connects (moved 0) (new_connector fd false) s.kernel in
      let w = record s {
        connector = r.0.0;
        kernel = r.1;
        closed = s.closed ++ destroy_connector s.connector;
      } in
      let q = record s.queue {
        timers = erase_entry (t.when_at, p) s.queue.timers;
        heap = store p none s.queue.heap;
      } in
      let canceled = cancel_timer-some p t s.queue live in
      (
        (
          opened e fd q w,
          rw n (ap (λ m. m >>= λ c. some c) (open_connection-opened e fd q w canceled c)),
          rw canceled refl,
        ),
        λ code h. self_cancel code _ t s.queue live ok h,
      )

  -- The destructor of a client with a connection that is not disconnected leaves a task that closes
  -- the connection, and this calls the close callback, of a client that is gone.
  pub destroy_lem :
      (s : TcpClient Kernel) (c : Connection)
      → s.connection ≡ some c
      → is_disconnected c ≡ false
      → s.retry_timer ≡ 0
      → (c' : Connection) × (destroy e s ≡ some (some (c', queue_force_close ∷ []), s.queue))
        × ((force_close_in_loop c').1 ≡ update disable_all ∷ close_callback ∷ [])
  unfolding destroy force_close force_close_in_loop handle_close
  destroy_lem s c h d r = (record c { state = disconnecting }, rw (r, h) (rw d refl), refl)
