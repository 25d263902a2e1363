-- ===== src/Logger/Program.antt =====
-- From the statements of a program to the file of the log.
use conex.Prelude.{true, some, List, [], ◌∷◌, ◌++◌, Bytes}
use conex.FixedBuffer.{FixedBuffer, small_buffer, bzero}
use conex.AsyncLogging.{AsyncLogging, Action, begun, logs, turns}
use conex.LogStream.Items.{accepted}
use conex.Logger.{Statement, Event, output, states, goes_on}
use conex.Logger.Line.{IsStatement, line_items}

abbrev pub AreStatements : List Event → Type 0
AreStatements [] = Unit {0}
AreStatements (states s ∷ es) = IsStatement s × AreStatements es
AreStatements (e ∷ es) = AreStatements es

abbrev pub line_of : Statement → Bytes
line_of s = accepted small_buffer (line_items s)

-- What the logger is told.
abbrev pub actions_of : List Event → List Action
actions_of [] = []
actions_of (states s ∷ es) = logs (line_of s) ∷ actions_of es
actions_of (goes_on ∷ es) = turns ∷ actions_of es

-- The lines of the statements, in order.
abbrev pub log_text : List Event → Bytes
log_text [] = []
log_text (states s ∷ es) = line_of s ++ log_text es
log_text (e ∷ es) = log_text es

-- The logger of the first statement.
unfoldable pub new_logger : FixedBuffer → AsyncLogging
new_logger nb = record {
  running = true;
  current_buffer = some (bzero nb);
  next_buffer = some (bzero nb);
  buffers = [];
  new_buffer1 = some (bzero nb);
  new_buffer2 = some (bzero nb);
  place = begun;
  file_opens = true;
  output = [];
}
