-- ===== src/Logger/Tests.antt =====
-- The lines of a program that logs one number.
use conex.Prelude.{ℕ, ◌≡◌, some, List, [], ◌∷◌, arith, replicate, length-replicate, codes, pos}
use conex.FixedBuffer.{FixedBuffer, small_buffer, large_buffer, start}
use conex.Decimal.{decimal}
use conex.LogStream.{c_string, integer}
use conex.AsyncLogging.{AsyncLogging}
use conex.Logger.{Statement, Event, log_line, states, goes_on}
use conex.Logger.Line.{IsStatement, whole_line_lem}

-- `ctime` ends its text with the end of a line.
abbrev statement : Statement
statement = record {
  array = replicate small_buffer 0;
  time = codes "Thu Nov 26 11:46:09 2026\n";
  file = codes "a.cc";
  line = pos 7;
  items = c_string (some (codes "n=")) ∷ integer (pos 42) ∷ [];
}

statement-IsStatement : IsStatement statement
statement-IsStatement = record {
  size_is = length-replicate {A = ℕ} small_buffer 0;
  time_short = omega arith;
  file_short = omega arith;
  line_is_int = omega arith;
  items_are = omega arith;
}

line_of_statement : log_line statement ≡ some (codes "Thu Nov 26 11:46:09 2026\nn=42--a.cc:7\n")
unfolding decimal
line_of_statement = whole_line_lem statement statement-IsStatement (omega arith)

abbrev program : List Event
program = goes_on ∷ states statement ∷ goes_on ∷ goes_on ∷ []

blank : FixedBuffer
blank = start (replicate large_buffer 0)
