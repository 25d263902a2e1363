-- ===== src/HttpServer/Exchange.antt =====
-- From the bytes of a request on the socket to those of the response.
use conex.Prelude.{
  ℕ, ◌+◌, ◌-◌, ◌≤◌, ◌<◌, ◌≡◌, refl, ap, ◌∙◌, Bool, true, false, ◌&&◌, ◌||◌, Option, some, List, [],
  ◌∷◌, ◌++◌, append-nil, arith, ltb, leb, if◌then◌else◌, lt→ltb, ◌>>=◌, length, drop, length-drop,
  drop-drop, Bytes,
}
use conex.Channel.{is_writing}
use conex.Memory.{max_size}
use conex.Buffer.{Buffer, Transfer, read_room, read_fd, moved}
use conex.Buffer.Inv.{IsValid, contents}
use conex.HttpServer.{Action, HttpCallback, must_close, on_message, send, shutdown}
use conex.TcpConnection.{
  send as send_on, shutdown as shutdown_on, Effect, Connection, is_disconnected, Step, send_in_loop,
  shutdown_in_loop, handle_read, connected, disconnecting,
}
use conex.TcpConnection.Send.{IsIdle, has_shutdown, has_shutdown-append, send_in_loop_lem}
use conex.HttpServer.Session.{Session, perform, reply_on, run_callback, receive}
use conex.HttpContext.{fresh, process_request_line}
use conex.TcpConnection.Flush.{sum, drain, is_flushed, drain_lem}
use conex.Buffer.Fd.{read_fd_lem}
use conex.Buffer.Search.{NoCrlf}
use conex.HttpRequest.{HttpRequest, empty_request}
use conex.HttpContext.Complete.{Header, line_end, message, AreHeaders, EndsHeaders, header_map}
use conex.HttpResponse.Output.{response_text}
use conex.HttpServer.Serve.{response_to, IsSendable, on_message_lem}

-- The connection after a response has been sent: what the kernel did not take waits, and the
-- writing side is shut down where the server closes and nothing waits.
pub record Answered (text : Bytes) (n : ℕ) (closes : Bool) (c : Connection) (r : Option Step)
    : Type 0 where
  pub result : Connection
  pub effects : List Effect
  pub returns : r ≡ some (result, effects)
  pub state_is : result.state ≡ (if closes then disconnecting else connected)
  pub valid : IsValid result.output_buffer
  pub holds : contents result.output_buffer ≡ drop n text
  pub input_kept : result.input_buffer ≡ c.input_buffer
  pub shut : has_shutdown effects ≡ (closes && leb (length text) n)

send_on-lem :
    (write : Bytes → Transfer ℕ) (text : Bytes) (c : Connection)
    → IsIdle c
    → send_on true write text c ≡ send_in_loop write text c
unfolding send_on
send_on-lem write text c i = rw i.is_open refl

shut_now :
    (n : ℕ) (text : Bytes) (c : Connection)
    → c.state ≡ disconnecting
    → is_writing c.channel ≡ ltb 0 (length (drop n text))
    → has_shutdown (shutdown_in_loop c) ≡ leb (length text) n
unfolding shutdown_in_loop
shut_now n text c s w = rw (s, w, length-drop n text) (ground arith)

-- The connection once `shutdown` has been called.
abbrev closing : Connection → Connection
closing c = record c { state = disconnecting }

perform-shutdown :
    (write : Bytes → Transfer ℕ) (c : Connection)
    → c.state ≡ connected
    → perform write (shutdown ∷ []) c ≡ some (closing c, shutdown_in_loop (closing c) ++ [])
unfolding perform shutdown_on
perform-shutdown write c s = rw s refl

perform-send :
    (write : Bytes → Transfer ℕ) (text : Bytes) (rest : List Action) (c : Connection)
    {c1 c2 : Connection} {e1 e2 : List Effect}
    → send_on true write text c ≡ some (c1, e1)
    → perform write rest c1 ≡ some (c2, e2)
    → perform write (send text ∷ rest) c ≡ some (c2, e1 ++ e2)
unfolding perform
perform-send write text rest c {c1} {c2} {e1} {e2} h k =
    ap (λ r. r >>= λ s. perform write rest s.0 >>= λ t. some (t.0, s.1 ++ t.1)) h
    ∙ ap (λ r. r >>= λ t. some (t.0, e1 ++ t.1)) k

perform_lem :
    (write : Bytes → Transfer ℕ) (text : Bytes) (n : ℕ) (closes : Bool) (c : Connection)
    → IsIdle c
    → write text ≡ moved n
    → n ≤ length text
    → c.output_buffer.writer_index + length text ≤ max_size
    → Answered text n closes c
        (perform write (send text ∷ (if closes then shutdown ∷ [] else [])) c)
unfolding perform shutdown_on
perform_lem write text n false c i w h room =
    let b = send_in_loop_lem write text n c i w h room in
    record {
      result = b.result;
      effects = b.effects ++ [];
      returns = perform-send write text [] c (send_on-lem write text c i ∙ b.returns) refl;
      state_is = b.state_kept ∙ i.is_open;
      valid = b.valid;
      holds = b.holds;
      input_kept = b.input_kept;
      shut = ap has_shutdown (append-nil b.effects) ∙ b.open_kept;
    }
perform_lem write text n true c i w h room =
    let b = send_in_loop_lem write text n c i w h room in
    let c' = closing b.result in
    let s : b.result.state ≡ connected = b.state_kept ∙ i.is_open in
    record {
      result = c';
      effects = b.effects ++ (shutdown_in_loop c' ++ []);
      returns =
          perform-send write text (shutdown ∷ []) c (send_on-lem write text c i ∙ b.returns)
            (perform-shutdown write b.result s);
      state_is = refl;
      valid = b.valid;
      holds = b.holds;
      input_kept = b.input_kept;
      shut =
          has_shutdown-append b.effects (shutdown_in_loop c' ++ [])
          ∙ rw (b.open_kept, append-nil (shutdown_in_loop c')) (shut_now n text c' refl b.writing);
    }

-- What comes of one read event with the rest of a request: the session is ready for the next one,
-- the response is out or waits in the output buffer, and after write events it goes on from there.
pub record Exchanged (text : Bytes) (n : ℕ) (ns : List ℕ) (closes : Bool)
    (r : Option (Session × List Effect)) : Type 0 where
  pub conn : Connection
  pub effects : List Effect
  pub returns : r ≡ some (record { conn = conn; context = fresh }, effects)
  pub input_empty : contents conn.input_buffer ≡ []
  pub state_is : conn.state ≡ (if closes then disconnecting else connected)
  pub output_is : contents conn.output_buffer ≡ drop n text
  pub shut : has_shutdown effects ≡ (closes && leb (length text) n)
  pub after : Connection
  pub drains : drain ns conn ≡ some after
  pub left_is : contents after.output_buffer ≡ drop (n + sum ns) text
  pub after_state :
      after.state ≡ (if closes || is_flushed ns (length text - n) then disconnecting else connected)

still_open :
    (c : Connection) (closes : Bool)
    → c.state ≡ (if closes then disconnecting else connected)
    → is_disconnected c ≡ false
still_open c true e = rw e refl
still_open c false e = rw e refl

closed_or :
    (closes flushed : Bool)
    → (if flushed then disconnecting else (if closes then disconnecting else connected))
      ≡ (if closes || flushed then disconnecting else connected)
closed_or true true = refl
closed_or true false = refl
closed_or false true = refl
closed_or false false = refl

receive_message :
    (callback : HttpCallback) (fuel : ℕ) (write : Bytes → Transfer ℕ) (bytes : List ℕ) (time : ℕ)
    (s : Session) {input : Buffer}
    → 0 < length bytes
    → read_fd (moved bytes) s.conn.input_buffer ≡ some (moved (length bytes), input)
    → receive callback fuel write (moved bytes) time s
      ≡ reply_on write
          (on_message callback fuel input time s.context)
          (record s.conn { input_buffer = input })
unfolding receive run_callback handle_read
receive_message callback fuel write bytes time s p r = rw r (rw (lt→ltb 0 (length bytes) p) refl)

-- A read event that brings the rest of a whole request to an idle connection, whose response the
-- callback can make and the kernel takes n bytes of: nothing faults, the response is the text of
-- what the callback makes, and what the kernel did not take waits in the output buffer. Every byte
-- of the request is taken and the parser is ready for the next one. The connection stays connected
-- unless the request asks to close; if it does, the connection is disconnecting, its writing side
-- shut down at once exactly if nothing waits. Write events then take the bytes that wait, in order.
-- The one that finds or leaves nothing makes the connection disconnecting too, also if the request
-- asks to keep it.
pub exchange_lem :
    (callback : HttpCallback) (line : Bytes) (hs : List Header) (last body : Bytes) (fuel time : ℕ)
    (bytes : List ℕ) (write : Bytes → Transfer ℕ) (n : ℕ) (ns : List ℕ) (c : Connection)
    {q : HttpRequest}
    → IsIdle c
    → IsValid c.input_buffer
    → 0 < length bytes
    → length bytes ≤ read_room c.input_buffer
    → c.input_buffer.writer_index + read_room c.input_buffer ≤ max_size
    → contents c.input_buffer ++ bytes ≡ line ++ line_end (message hs last body)
    → NoCrlf (line ++ b'\r' ∷ [])
    → AreHeaders hs
    → EndsHeaders last
    → process_request_line line empty_request ≡ some (true, q)
    → length hs + 3 ≤ fuel
    → let request = record q {
      receive_time = time;
      headers = header_map hs q.headers;
      body = body;
    } in
      let text = response_text (response_to callback request) in
      IsSendable (response_to callback request)
      → write text ≡ moved n
      → n ≤ length text
      → c.output_buffer.writer_index + length text ≤ max_size
      → Exchanged text n ns
          (must_close request)
          (receive callback fuel write (moved bytes) time (record { conn = c; context = fresh }))
unfolding reply_on
exchange_lem callback line hs last body fuel time bytes write n ns c {q} i v p room most k nc w e f
      s h wr nl out =
    let request = record q {
      receive_time = time;
      headers = header_map hs q.headers;
      body = body;
    } in
    let text = response_text (response_to callback request) in
    let r = read_fd_lem bytes v room most in
    let m =
      on_message_lem callback line hs last body fuel time r.valid (r.holds ∙ k) nc w e f s h in
    let c' = record c { input_buffer = m.0 } in
    let idle : IsIdle c' = record {
      is_open = i.is_open;
      not_writing = i.not_writing;
      output_valid = i.output_valid;
      output_empty = i.output_empty;
    } in
    let a = perform_lem write text n (must_close request) c' idle wr nl out in
    let d = drain_lem ns a.result (still_open a.result (must_close request) a.state_is) a.valid in
    record {
      conn = a.result;
      effects = a.effects;
      returns =
          receive_message callback fuel write bytes time (record { conn = c; context = fresh }) p
            r.returns
          ∙ ap (λ x. reply_on write x (record c { input_buffer = r.result })) m.1
          ∙ ap (λ x. x >>= λ s. some (record { conn = s.0; context = fresh }, s.1)) a.returns;
      input_empty = ap contents a.input_kept ∙ m.2;
      state_is = a.state_is;
      output_is = a.holds;
      shut = a.shut;
      after = d.result;
      drains = d.returns;
      left_is = d.holds ∙ ap (drop (sum ns)) a.holds ∙ drop-drop (sum ns) n text;
      after_state =
          d.state_is
          ∙ ap (λ xs. if is_flushed ns (length xs) then disconnecting else a.result.state) a.holds
          ∙ rw (a.state_is, length-drop n text)
              (closed_or (must_close request) (is_flushed ns (length text - n)));
    }
