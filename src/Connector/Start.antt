-- ===== src/Connector/Start.antt =====
-- What `start` and the write event of a connector come to.
use conex.Prelude.{ℕ, ◌≡◌, refl, ap, ◌∙◌, ◌≢◌, Bool, true, false, none, some, [], ◌∷◌, ==_false}
use conex.Buffer.{Transfer, moved}
use conex.Channel.{
  Channel, none_event, read_event, write_event, make_channel, change_events, enable_reading,
}
use conex.EPoller.{Epoll, choose_op, update_channel, change, remove_channel, op_add, op_del}
use conex.Connector.{
  Connector, make_connector, set_new_connection, einprogress, report, handle_write, start,
  new_connection, connects, fails,
}

-- A connector as TcpClient makes it, with an error callback or none.
abbrev pub new_connector : ℕ → Bool → Connector
new_connector fd errors = record (set_new_connection (make_connector fd)) {
  has_error_callback = errors;
}

module _ (e : Epoll) where
  open e use {Kernel, interest, epoll_ctl, add_absent, add_present, mod_present, del_present}

  -- The connection's own channel is put on the descriptor: the kernel's answer and its list then.
  abbrev pub established : ℕ → Kernel → Bool × Channel × Kernel
  established fd k = change e enable_reading (make_channel fd) k

  -- While `connect` is in progress the kernel watches for the socket to become writable. Once it is,
  -- and there is no error, the connection is reported, once, on a descriptor that the kernel does not
  -- have any more; so it accepts the connection's channel, and watches for what it reads.
  pub in_progress_lem :
      (fd : ℕ) (errors : Bool) (k : Kernel) (sockopt : Transfer ℕ)
      → interest k fd ≡ none
      → let ((waiting, none_yet), k1) =
          start e (fails einprogress) sockopt (new_connector fd errors) k in
        let ((done, notices), k2) = handle_write e (moved 0) waiting k1 in
        let (accepted, ch, k3) = established fd k2 in
        (none_yet ≡ [])
        × (interest k1 fd ≡ some write_event)
        × (notices ≡ new_connection fd ∷ [])
        × (done.connected ≡ true)
        × (interest k2 fd ≡ none)
        × (accepted ≡ true)
        × (interest k3 fd ≡ some read_event)
  unfolding start handle_write report remove_channel change update_channel choose_op change_events
  in_progress_lem fd errors k sockopt h =
      let k1 = (epoll_ctl op_add fd write_event k).1 in
      let a = add_absent fd write_event k h in
      let k2 = (epoll_ctl op_del fd none_event k1).1 in
      let d = del_present fd none_event write_event k1 a.1 in
      let r = add_absent fd read_event k2 d.1 in (refl, a.1, refl, refl, d.1, r.0, r.1)

  -- When `connect` succeeds at once, `handleWrite` removes a channel that the poller does not have,
  -- which puts it there. The kernel then refuses the connection's channel, and does not watch for
  -- anything that the peer sends.
  pub at_once_lem :
      (fd : ℕ) (errors : Bool) (k : Kernel)
      → interest k fd ≡ none
      → let ((done, notices), k1) = start e connects (moved 0) (new_connector fd errors) k in
        let (accepted, ch, k2) = established fd k1 in
        (notices ≡ new_connection fd ∷ []) × (accepted ≡ false) × (interest k2 fd ≡ some none_event)
  unfolding start handle_write report remove_channel change update_channel choose_op change_events
  at_once_lem fd errors k h =
      let k1 = (epoll_ctl op_add fd none_event k).1 in
      let a = add_absent fd none_event k h in
      let r = add_present fd read_event none_event k1 a.1 in
      (refl, ap (λ x. x.0) r, ap (λ x. interest x.1 fd) r ∙ a.1)

  -- When `connect` fails at once, its error is lost: the socket has none to report, and a connection
  -- is reported that is none.
  pub refused_lem :
      (err fd : ℕ) (errors : Bool) (k : Kernel)
      → err ≢ einprogress
      → (start e (fails err) (moved 0) (new_connector fd errors) k).0.1 ≡ new_connection fd ∷ []
  unfolding start handle_write report
  refused_lem err fd errors k h = rw (==_false err einprogress h) refl
