-- ===== src/Logger.antt =====
-- Logger.h and Logger.cc: one line of the log, from `LOG << …` to the buffers of AsyncLogging. The
-- time is the text that `ctime` gives for it, with the end of line that this text has.
pub mod Line
pub mod Program
mod Tests
use conex.Prelude.{ℕ, Bool, Option, none, some, List, [], ◌∷◌, ◌>>=◌, ◌>>◌, Bytes, codes, ℤ}
use conex.FixedBuffer.{FixedBuffer, start}
use conex.FixedBuffer.Fill.{text}
use conex.LogStream.{Item, put, put_all, c_string, string, integer}
use conex.AsyncLogging.{Action as LogAction, act as log_act, AsyncLogging, started, log, turns}

-- `Impl`: the stream, the line number and the name of the file as `__FILE__` gives it.
pub record Logger : Type 0 where
  pub stream : FixedBuffer
  pub line : ℤ
  pub basename : Bytes

-- `formatTime`.
unfoldable pub format_time : Bytes → Logger → Option Logger
format_time time l = do
  stream ← put (c_string (some time)) l.stream
  some (record l { stream = stream })

-- The constructor, on whatever the array of the stream holds.
unfoldable pub make_logger : List ℕ → Bytes → Bytes → ℤ → Option Logger
make_logger array time file line =
    format_time time (record { stream = start array; line = line; basename = file })

abbrev pub dashes : Bytes
dashes = b'-' ∷ b'-' ∷ []

-- What the destructor adds to the stream, and the line that it hands over.
unfoldable pub finish : Logger → Option Bytes
finish l = do
  stream ←
      put_all
        (c_string (some dashes)
          ∷ string l.basename
          ∷ c_string (some (codes ":"))
          ∷ integer l.line
          ∷ c_string (some (codes "\n"))
          ∷ [])
        l.stream
  some (text stream)

-- A statement `LOG << …`.
pub record Statement : Type 0 where
  pub array : List ℕ
  pub time : Bytes
  pub file : Bytes
  pub line : ℤ
  pub items : List Item

unfoldable pub log_line : Statement → Option Bytes
log_line s = do
  l ← make_logger s.array s.time s.file s.line
  stream ← put_all s.items l.stream
  finish (record l { stream = stream })

-- `once_init` and `output`: the first line makes the logger on the name of the log file and starts
-- its thread. Nothing stops or destroys it. `file_opens` tells whether the file can be opened.
abbrev pub once_init : FixedBuffer → Bytes → Bool → Option AsyncLogging → Option AsyncLogging
once_init new_buffer log_file_name file_opens none = started new_buffer log_file_name file_opens
once_init new_buffer log_file_name file_opens (some logger) = some logger

abbrev pub default_log_file_name : Bytes
default_log_file_name = codes "./Conex.log"

unfoldable pub output :
    FixedBuffer → Bytes → Bool → Bytes → Option AsyncLogging → Option AsyncLogging
output new_buffer log_file_name file_opens line logger = do
  s ← once_init new_buffer log_file_name file_opens logger
  log new_buffer line s

-- What a program does: a statement of some thread, or a turn of the logger's thread. At its end the
-- logger's thread just stops where it is.
pub data Event : Type 0 where
  states : Statement → Event
  goes_on : Event

unfoldable pub step : FixedBuffer → Bytes → Bool → Event → Option AsyncLogging → Option AsyncLogging
step new_buffer log_file_name file_opens (states s) logger = do
  line ← log_line s
  output new_buffer log_file_name file_opens line logger
step new_buffer log_file_name file_opens goes_on logger = do s ← logger; log_act new_buffer turns s

unfoldable pub run_program :
    FixedBuffer → Bytes → Bool → List Event → Option AsyncLogging → Option AsyncLogging
run_program new_buffer log_file_name file_opens [] logger = logger
run_program new_buffer log_file_name file_opens (e ∷ es) logger = do
  s ← step new_buffer log_file_name file_opens e logger
  run_program new_buffer log_file_name file_opens es (some s)
