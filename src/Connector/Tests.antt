-- ===== src/Connector/Tests.antt =====
-- The theorems about connectors on a concrete kernel.
use conex.Prelude.{◌≡◌, refl, true, false, none, some, [], ◌∷◌, arith}
use conex.Buffer.{moved}
use conex.Channel.{none_event, read_event, write_event}
use conex.EPoller.Table.{table_epoll, nothing}
use conex.Connector.{
  einprogress, report, handle_write, start, error_callback, new_connection, connects, fails,
}
use conex.Connector.Start.{new_connector, established, in_progress_lem, at_once_lem, refused_lem}

connects_later :
    let ((waiting, none_yet), k1) =
      start table_epoll (fails einprogress) (moved 0) (new_connector 5 true) nothing in
    let ((done, notices), k2) = handle_write table_epoll (moved 0) waiting k1 in
    let (accepted, ch, k3) = established table_epoll 5 k2 in
    (none_yet ≡ [])
    × (k1 5 ≡ some write_event)
    × (notices ≡ new_connection 5 ∷ [])
    × (done.connected ≡ true)
    × (k2 5 ≡ none)
    × (accepted ≡ true)
    × (k3 5 ≡ some read_event)
connects_later = in_progress_lem table_epoll 5 true nothing (moved 0) refl

at_once_lem_example :
    let ((done, notices), k1) =
      start table_epoll connects (moved 0) (new_connector 5 false) nothing in
    let (accepted, ch, k2) = established table_epoll 5 k1 in
    (notices ≡ new_connection 5 ∷ []) × (accepted ≡ false) × (k2 5 ≡ some none_event)
at_once_lem_example = at_once_lem table_epoll 5 false nothing refl

-- `ECONNREFUSED`
error_lost :
    (start table_epoll (fails 111) (moved 0) (new_connector 5 true) nothing).0.1
    ≡ new_connection 5 ∷ []
error_lost = refused_lem table_epoll 111 5 true nothing (omega arith)

-- An error that the socket still has is reported.
error_reported :
    (handle_write table_epoll (moved 111) (new_connector 5 true) nothing).0.1 ≡ error_callback ∷ []
unfolding handle_write report
error_reported = refl
