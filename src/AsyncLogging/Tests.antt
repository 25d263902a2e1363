-- ===== src/AsyncLogging/Tests.antt =====
-- The theorems on a logger with buffers of eight bytes.
use conex.Prelude.{
  ℕ, ◌≤◌, ◌<◌, ◌≡◌, refl, true, false, none, some, List, [], ◌∷◌, ◌++◌, arith, ◌>>=◌, length, take,
  replicate, flatten, Bytes, codes,
}
use conex.FixedBuffer.{FixedBuffer, start, bzero}
use conex.AsyncLogging.{
  AsyncLogging, Action, started, turn, run, begun, head, waiting, logs, turns, stops,
}
use conex.AsyncLogging.Valid.{IsValid, texts}
use conex.AsyncLogging.Stop.{stopped_lem, early_stop_lem}
use conex.AsyncLogging.Run.{OnSome, writes_all}

abbrev blank : FixedBuffer
blank = start (replicate 8 0)

abbrev line : ℕ → Bytes
line c = replicate 5 c

abbrev mixed : List Action
mixed =
    turns
    ∷ logs (line 1)
    ∷ logs (line 2)
    ∷ turns
    ∷ turns
    ∷ logs (line 3)
    ∷ turns
    ∷ stops
    ∷ turns
    ∷ []

-- A logger that has been started.
abbrev new_logger : AsyncLogging
new_logger = record {
  running = true;
  current_buffer = some blank;
  next_buffer = some blank;
  buffers = [];
  new_buffer1 = some blank;
  new_buffer2 = some blank;
  place = begun;
  file_opens = true;
  output = [];
}

starts : started blank (codes "./log") true ≡ some new_logger
unfolding started bzero
starts = refl

early_stop_here : run blank (stops ∷ logs (line 1) ∷ turns ∷ []) new_logger ≡ none
early_stop_here = early_stop_lem blank (line 1 ∷ []) new_logger refl

abbrev holding : ℕ → FixedBuffer
holding c = record { array = line c ++ 0 ∷ 0 ∷ 0 ∷ []; cur = 5 }

-- One buffer waits, and another is in use.
abbrev busy : AsyncLogging
busy = record {
  running = true;
  current_buffer = some (holding 2);
  next_buffer = none;
  buffers = holding 1 ∷ [];
  new_buffer1 = some blank;
  new_buffer2 = some blank;
  place = waiting;
  file_opens = true;
  output = [];
}

writes_all_example :
    (result : AsyncLogging) × ((do s' ← turn busy; turn s') ≡ some result)
    × IsValid 8 result
    × (length busy.buffers < 25 → flatten result.output ≡ line 1 ++ line 2)
    × (25 ≤ length busy.buffers → flatten result.output ≡ [] ++ texts (take 2 busy.buffers))
writes_all_example = writes_all busy (ground arith) refl

stopped_here :
    OnSome
      (λ s'. s'.output ≡ [])
      (run blank mixed (record new_logger { place = head; running = false }))
stopped_here =
    stopped_lem blank mixed (record new_logger { place = head; running = false }) [] refl refl refl
