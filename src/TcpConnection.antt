-- ===== src/TcpConnection.antt =====
-- TcpConnection.h and TcpConnection.cc: one connection. A method returns the connection after it
-- and, in order, what it does to the rest of the system. The answers of `read`, `write` and
-- `isInLoopThread` are arguments; a fault of a buffer is `none`.
pub mod Lifecycle
pub mod Send
pub mod Flush
pub mod Deliver
pub mod Pending
pub mod Changes
pub mod Watched
mod Tests
use conex.Prelude.{
  ℕ, ◌-◌, Bool, true, false, not, ◌&&◌, ◌||◌, Option, some, List, [], ◌∷◌, ◌++◌, ltb, leb, ◌==◌,
  if◌then◌else◌, ◌>>=◌, ◌>>◌, length, drop, Bytes,
}
use conex.Buffer.{
  Buffer, Transfer, readable_bytes, peek, retrieve_all, retrieve, retrieve_all_as_string, append,
  read_fd, write_fd, failed, moved,
}
use conex.Channel.{
  Channel, Change, make_channel, tie, is_writing, is_reading, change_events, enable_reading,
  disable_reading, enable_writing, disable_writing, disable_all,
}
use conex.Memory.{add_size, read_at}

pub data ConnectionState : Type 0 where
  connecting connected disconnecting disconnected : ConnectionState

-- A change of the channel's events, tasks queued in the loop, `::shutdown(SHUT_WR)`, and the
-- callbacks that run at once.
pub data Effect : Type 0 where
  update : Change → Effect
  queue_send : Bytes → Effect
  queue_write_complete queue_shutdown queue_force_close : Effect
  queue_high_water : ℕ → Effect
  shutdown_write : Effect
  message_callback : ℕ → Effect
  close_callback : Effect

pub record Connection : Type 0 where
  pub state : ConnectionState
  pub channel : Channel
  pub input_buffer : Buffer
  pub output_buffer : Buffer
  pub high_water_mark : ℕ
  pub has_write_complete : Bool
  pub has_high_water : Bool

abbrev pub is_connected : Connection → Bool
is_connected c = elim c.state [ connected ↦ true | _ ↦ false ]

abbrev pub is_disconnected : Connection → Bool
is_disconnected c = elim c.state [ disconnected ↦ true | _ ↦ false ]

-- The constructor, on two new buffers.
abbrev pub make_connection : ℕ → Buffer → Buffer → Connection
make_connection sockfd input output = record {
  state = connecting;
  channel = make_channel sockfd;
  input_buffer = input;
  output_buffer = output;
  high_water_mark = 0;
  has_write_complete = false;
  has_high_water = false;
}

abbrev pub set_high_water : ℕ → Connection → Connection
set_high_water mark c = record c { has_high_water = true; high_water_mark = mark }

abbrev pub set_write_complete : Connection → Connection
set_write_complete c = record c { has_write_complete = true }

abbrev pub Step : Type 0
Step = Connection × List Effect

-- A change of events goes to the poller at once.
abbrev pub with_change : Change → Connection → Step
with_change ch c = (record c { channel = change_events ch c.channel }, update ch ∷ [])

unfoldable pub connect_established : Connection → Step
connect_established c =
    with_change enable_reading (record c { state = connected; channel = tie c.channel })

abbrev pub eagain : ℕ
eagain = 11

abbrev pub epipe : ℕ
epipe = 32

abbrev pub econnreset : ℕ
econnreset = 104

-- `faultError` after a failed write, the number of bytes that are left, and whether the write
-- has completed the message. `write` takes no more than it is given, so `len - nwrote` does not wrap.
unfoldable pub after_write : Transfer ℕ → ℕ → Bool × ℕ × Bool
after_write (failed e) len = (not (e == eagain) && (e == epipe || e == econnreset), len, false)
after_write (moved n) len = (false, len - n, len - n == 0)

-- The high water callback, when the output buffer comes to hold that much.
unfoldable pub high_water : ℕ → ℕ → Connection → List Effect
high_water old_len remain c =
    if leb c.high_water_mark (add_size old_len remain)
      && (ltb old_len c.high_water_mark && c.has_high_water)
    then queue_high_water (add_size old_len remain) ∷ []
    else []

-- The rest of a message goes to the output buffer, and the channel waits to be writable.
unfoldable pub buffer_rest : Bytes → Connection → Option Step
buffer_rest rest c = do
  let high = high_water (readable_bytes c.output_buffer) (length rest) c
  output ← append rest c.output_buffer
  let c' = record c { output_buffer = output }
  some (
      if not (is_writing c'.channel)
      then (
        record c' { channel = change_events enable_writing c'.channel },
        high ++ update enable_writing ∷ [],
      )
      else (c', high))

-- The write complete callback, when a message is out.
abbrev pub write_complete : Bool → Connection → List Effect
write_complete done c = if done && c.has_write_complete then queue_write_complete ∷ [] else []

-- `sendInLoop`: everything stands under the test that nothing is left from before.
unfoldable pub send_in_loop : (Bytes → Transfer ℕ) → Bytes → Connection → Option Step
unfolding after_write
send_in_loop write bytes c =
    if not (is_connected c)
    then some (c, [])
    else if not (is_writing c.channel) && readable_bytes c.output_buffer == 0
    then (do
      let (fault_error, remain, done) = after_write (write bytes) (length bytes)
      let complete : List Effect =
          if done && c.has_write_complete then queue_write_complete ∷ [] else []
      if not fault_error && ltb 0 remain
          then (do
            (c', effects) ← buffer_rest (drop (length bytes - remain) bytes) c
            some (c', complete ++ effects))
          else some (c, complete))
    else some (c, [])

-- `send(data, len)`.
unfoldable pub send : Bool → (Bytes → Transfer ℕ) → Bytes → Connection → Option Step
send in_loop write bytes c =
    if not (is_connected c)
    then some (c, [])
    else if in_loop
    then send_in_loop write bytes c
    else some (c, queue_send bytes ∷ [])

-- `send(Buffer&)` also empties the buffer it is given, unless the connection is not connected.
unfoldable pub send_buffer :
    Bool → (Bytes → Transfer ℕ) → Buffer → Connection → Option (Buffer × Step)
send_buffer in_loop write buffer c =
    if not (is_connected c)
    then some (buffer, (c, []))
    else if in_loop
    then (do
      bytes ← read_at buffer.buffer (peek buffer) (readable_bytes buffer)
      step ← send_in_loop write bytes c
      some (retrieve_all buffer, step))
    else (do (bytes, left) ← retrieve_all_as_string buffer; some (left, (c, queue_send bytes ∷ [])))

unfoldable pub shutdown_in_loop : Connection → List Effect
shutdown_in_loop c =
    if not (is_disconnected c) && not (is_writing c.channel) then shutdown_write ∷ [] else []

unfoldable pub shutdown : Bool → Connection → Step
shutdown in_loop c =
    if is_connected c
    then (let c' = record c { state = disconnecting } in
        (c', if in_loop then shutdown_in_loop c' else queue_shutdown ∷ []))
    else (c, [])

-- `removeChannel` is `disableAll`.
unfoldable pub handle_close : Connection → Step
handle_close c =
    let c' = record c { state = disconnected; channel = change_events disable_all c.channel } in
    (c', update disable_all ∷ close_callback ∷ [])

unfoldable pub force_close : Connection → Step
force_close c =
    if not (is_disconnected c)
    then (record c { state = disconnecting }, queue_force_close ∷ [])
    else (c, [])

unfoldable pub force_close_in_loop : Connection → Step
force_close_in_loop c = if not (is_disconnected c) then handle_close c else (c, [])

-- The tasks that `stopRead` and `startRead` run in the loop.
unfoldable pub stop_read : Connection → Step
stop_read c = if is_reading c.channel then with_change disable_reading c else (c, [])

unfoldable pub start_read : Connection → Step
start_read c = if not (is_reading c.channel) then with_change enable_reading c else (c, [])

-- `handleError` only reads the socket's error for the log.
abbrev pub handle_error : Connection → Step
handle_error c = (c, [])

unfoldable pub handle_read : Transfer (List ℕ) → ℕ → Connection → Option Step
handle_read answer time c = do
  (n, input) ← read_fd answer c.input_buffer
  let c' = record c { input_buffer = input }
  some (elim n [
    | failed e ↦ handle_error c'
    | moved n ↦ if ltb 0 n then (c', message_callback time ∷ []) else handle_close c'
  ])

-- Once the output buffer is empty. The test `if(state_ = kDisconnecting)` is an assignment, and
-- its value is never zero.
unfoldable pub output_done : Connection → Step
output_done c =
    let c' = record c {
      channel = change_events disable_writing c.channel;
      state = disconnecting;
    } in
    (c', (update disable_writing ∷ write_complete true c) ++ shutdown_in_loop c')

unfoldable pub handle_write : (List ℕ → Transfer ℕ) → Connection → Option Step
handle_write write c = if is_disconnected c then some (c, []) else (do
  n ← write_fd write c.output_buffer
  elim n [
    | failed e ↦ some (c, [])
    | moved n ↦ do
      output ← retrieve n c.output_buffer
      let c' = record c { output_buffer = output }
      some (if readable_bytes output == 0 then output_done c' else (c', []))
  ])
