-- ===== src/TcpClient/Tests.antt =====
-- The theorems about clients on a concrete kernel.
use conex.Prelude.{ℕ, ◌≡◌, refl, true, false, none, some, List, [], ◌∷◌, arith, ◌>>=◌}
use conex.Buffer.{moved}
use conex.EPoller.Table.{Table, table_epoll, nothing}
use conex.TcpClient.{
  TcpClient, retry_interval, retry_callback, new_conn, start, retry, connect_event, destroy,
  told_error,
}
use conex.TcpClient.Connects.{Connected, new_client, new_buffer, connects_lem}
use conex.TcpClient.Retries.{seen, start_at_once_lem, errors_lem, retry_at_once_lem, destroy_lem}
use conex.TcpConnection.{
  Connection, connect_established, force_close_in_loop, update, queue_force_close, close_callback,
}
use conex.TimerQueue.{
  Timer, Operation, make_timer, make_timer_queue, store, run_operations, fire, cancels,
}
use conex.Channel.{disable_all}
use conex.Connector.{einprogress, connects, fails}

connects_lem_example : Connected table_epoll 5 make_timer_queue (do
  s ←
      start table_epoll
        (fails einprogress)
        (moved 0)
        100
        (new_client 5 true false make_timer_queue nothing)
  connect_event table_epoll (moved 0) s)
connects_lem_example = connects_lem table_epoll 5 100 true false make_timer_queue nothing refl tt

null_timer :
    start table_epoll connects (moved 0) 100 (new_client 5 true false make_timer_queue nothing)
    ≡ none
null_timer = start_at_once_lem table_epoll 5 100 true false make_timer_queue nothing refl

-- Two tries that are refused with `ECONNREFUSED`.
two_errors :
    (do
      s1 ←
          start table_epoll
            (fails einprogress)
            (moved 0)
            100
            (new_client 5 true false make_timer_queue nothing)
      s2 ← connect_event table_epoll (moved 111) s1
      s3 ← retry table_epoll (fails einprogress) (moved 0) 6 s2
      s ← connect_event table_epoll (moved 111) s3
      some (seen s))
    ≡ some (told_error ∷ [], false, 1, 5 ∷ [])
two_errors =
    errors_lem table_epoll 5 6 100 111 111 false make_timer_queue nothing (omega arith)
      (omega arith)

abbrev retry_at : Timer
retry_at = make_timer retry_callback 200 retry_interval

abbrev waiting : TcpClient Table
waiting = record (new_client 5 true false make_timer_queue nothing) {
  retry_timer = 1;
  queue = record make_timer_queue {
    timers = (200, 1) ∷ [];
    heap = store 1 (some retry_at) (λ p. none);
    next_pointer = 2;
  };
}

retry_at_once_lem_example :
    ((s' : TcpClient Table) × (retry table_epoll connects (moved 0) 6 waiting ≡ some s')
      × (run_operations (cancels 1 ∷ []) waiting.queue ≡ some s'.queue))
    × ((code : ℕ → List Operation)
        → code retry_callback ≡ cancels 1 ∷ []
        → fire code (200, 1) waiting.queue ≡ none)
retry_at_once_lem_example = retry_at_once_lem table_epoll 6 waiting retry_at refl refl refl refl

abbrev conn : Connection
conn = new_conn table_epoll 5 false new_buffer new_buffer

abbrev with_conn : TcpClient Table
with_conn = record (new_client 5 true false make_timer_queue nothing) {
  connected = true;
  connection = some conn;
}

called_when_gone :
    (c' : Connection) × (destroy table_epoll with_conn
      ≡ some (some (c', queue_force_close ∷ []), make_timer_queue))
    × ((force_close_in_loop c').1 ≡ update disable_all ∷ close_callback ∷ [])
unfolding connect_established
called_when_gone = destroy_lem table_epoll with_conn conn refl refl refl
