-- ===== src/EventLoop/Timers.antt =====
-- The timers of a loop, EventLoop.cc on TimerQueue.cc: the functions that pass on to the queue. The
-- time that `time::now()` gives is an argument.
use conex.Prelude.{ℕ, ◌+◌, Option}
use conex.TimerQueue.{TimerQueue, add_timer, cancel_timer}

-- `runAt`, `runAfter`, `runEvery` and `cancelTimer`.
abbrev pub run_at : ℕ → ℕ → TimerQueue → ℕ × TimerQueue
run_at when_at callback q = add_timer callback when_at 0 q

abbrev pub run_after : ℕ → ℕ → ℕ → TimerQueue → ℕ × TimerQueue
run_after now interval callback q = run_at (now + interval) callback q

abbrev pub run_every : ℕ → ℕ → ℕ → TimerQueue → ℕ × TimerQueue
run_every now interval callback q = add_timer callback (now + interval) interval q

abbrev pub cancel_in_loop : ℕ → TimerQueue → Option TimerQueue
cancel_in_loop p q = cancel_timer p q
