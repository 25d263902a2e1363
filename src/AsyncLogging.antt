-- ===== src/AsyncLogging.antt =====
-- AsyncLogging.h and AsyncLogging.cc: the threads of the program log into buffers, and one thread
-- writes full buffers to the log file. A pointer is an `Option`, since no two of them share a
-- buffer; `new_buffer` is what `new Buffer` gives. `none` is a failed assertion or a null pointer.
pub mod Valid
pub mod Write
pub mod Turn
pub mod Step
pub mod Run
pub mod Stop
mod Tests
use conex.Prelude.{
  Bool, true, false, Option, none, some, List, [], ◌∷◌, ◌++◌, map, reverse, ltb, ◌==◌,
  if◌then◌else◌, ◌>>=◌, ◌>>◌, assert, length, take, Bytes,
}
use conex.FixedBuffer.{FixedBuffer, avail, append, reset, bzero}
use conex.FixedBuffer.Fill.{text}

-- Where the thread is: before its first statement, at the head of its loop, in the wait behind the
-- test, or writing buffers.
pub data Place : Type 0 where
  begun head waiting : Place
  writing : List FixedBuffer → Place

-- The members, and those of the thread: its two spare buffers, where it is with the buffers that
-- it is writing, and the calls of `output.append` so far. `file_opens` tells whether `fopen` opens
-- the log file: the thread does not test that, and a null pointer is undefined.
pub record AsyncLogging : Type 0 where
  pub running : Bool
  pub current_buffer : Option FixedBuffer
  pub next_buffer : Option FixedBuffer
  pub buffers : List FixedBuffer
  pub new_buffer1 : Option FixedBuffer
  pub new_buffer2 : Option FixedBuffer
  pub place : Place
  pub file_opens : Bool
  pub output : List Bytes

-- The constructor, with its assert on the name of the file, then `start`. The spare buffers are the
-- ones that the thread makes before its loop.
unfoldable pub started : FixedBuffer → Bytes → Bool → Option AsyncLogging
started new_buffer basename file_opens = do
  assert (ltb 1 (length basename))
  some (record {
    running = true;
    current_buffer = some (bzero new_buffer);
    next_buffer = some (bzero new_buffer);
    buffers = [];
    new_buffer1 = some (bzero new_buffer);
    new_buffer2 = some (bzero new_buffer);
    place = begun;
    file_opens = file_opens;
    output = [];
  })

-- `stop`, whose notification only ends a wait.
unfoldable pub stop : AsyncLogging → AsyncLogging
stop s = record s { running = false }

-- `nextBuffer_`, or a new one.
abbrev pub take_next : FixedBuffer → Option FixedBuffer → FixedBuffer
take_next new_buffer none = new_buffer
take_next new_buffer (some b) = b

-- `append`, which runs under the lock.
unfoldable pub log : FixedBuffer → Bytes → AsyncLogging → Option AsyncLogging
log new_buffer line s = do
  current ← s.current_buffer
  if ltb (length line) (avail current)
      then (do current' ← append line current; some (record s { current_buffer = some current' }))
      else (do
        current' ← append line (take_next new_buffer s.next_buffer)
        some (record s {
          buffers = s.buffers ++ current ∷ [];
          current_buffer = some current';
          next_buffer = none;
        }))

abbrev pub or_else : Option FixedBuffer → Option FixedBuffer → Option FixedBuffer
or_else none b = b
or_else (some a) b = some a

abbrev pub kept_spare : Option FixedBuffer → Option FixedBuffer → Option FixedBuffer
kept_spare none b = none
kept_spare (some a) b = b

-- The part of the thread's loop under the lock, after the wait.
unfoldable pub collect : AsyncLogging → Option AsyncLogging
collect s = do
  current ← s.current_buffer
  some (record s {
    current_buffer = s.new_buffer1;
    new_buffer1 = none;
    buffers = [];
    place = writing (s.buffers ++ current ∷ []);
    next_buffer = or_else s.next_buffer s.new_buffer2;
    new_buffer2 = kept_spare s.next_buffer s.new_buffer2;
  })

-- More than 25 buffers are too many: only two are kept.
abbrev pub to_output : List FixedBuffer → List FixedBuffer
to_output bs = if ltb 25 (length bs) then take 2 bs else bs

-- `resize(2)` of the buffers written.
abbrev pub left_over : List FixedBuffer → List FixedBuffer
left_over kept = if ltb 2 (length kept) then take 2 kept else kept

-- A spare buffer from the back of those written.
unfoldable pub refill :
    Option FixedBuffer → List FixedBuffer → Option (Option FixedBuffer × List FixedBuffer)
refill (some b) left = some (some b, left)
refill none left = elim (reverse left) [ [] ↦ none | b ∷ bs ↦ some (some (reset b), reverse bs) ]

-- The rest of the loop's body, with the assert in front of it.
unfoldable pub write_out : List FixedBuffer → AsyncLogging → Option AsyncLogging
write_out bs s = do
  assert (ltb 0 (length bs))
  let kept = to_output bs
  (new1, left1) ← refill s.new_buffer1 (left_over kept)
  (new2, left2) ← refill s.new_buffer2 left1
  some (record s {
    output = s.output ++ map text kept;
    place = head;
    new_buffer1 = new1;
    new_buffer2 = new2;
  })

-- A spare buffer is there and empty.
abbrev pub is_empty : Option FixedBuffer → Bool
is_empty none = false
is_empty (some b) = b.cur == 0

-- The next part of the thread. It begins with the assert that it is to run, and opens the file. At
-- the head of its loop it ends when it is not to run, and asserts that its spare buffers are empty;
-- after the wait it does not look again.
unfoldable pub turn_at : Place → Bool → AsyncLogging → Option AsyncLogging
turn_at begun running s = do assert running; assert s.file_opens; some (record s { place = head })
turn_at head true s = do
  assert (is_empty s.new_buffer1)
  assert (is_empty s.new_buffer2)
  some (record s { place = waiting })
turn_at head false s = some s
turn_at waiting running s = collect s
turn_at (writing bs) running s = write_out bs s

unfoldable pub turn : AsyncLogging → Option AsyncLogging
turn s = turn_at s.place s.running s

-- What the threads do, in the order in which it takes effect.
pub data Action : Type 0 where
  logs : Bytes → Action
  turns stops : Action

unfoldable pub act : FixedBuffer → Action → AsyncLogging → Option AsyncLogging
act new_buffer (logs line) s = log new_buffer line s
act new_buffer turns s = turn s
act new_buffer stops s = some (stop s)

unfoldable pub run : FixedBuffer → List Action → AsyncLogging → Option AsyncLogging
run new_buffer [] s = some s
run new_buffer (action ∷ actions) s = do s' ← act new_buffer action s; run new_buffer actions s'
