-- ===== src/EventLoop/Tests.antt =====
-- The theorems on a loop that has been entered.
use conex.Prelude.{◌≡◌, refl, true, false, none, some, List, [], ◌∷◌}
use conex.EventLoop.{
  EventLoop, Action, make_event_loop, poll_returns, run, polling, handling, loops, reads_wakeup,
  swaps, runs_task, ends_round, wakes_up, polls, queues,
}
use conex.EventLoop.Wakeup.{wanted, OnSome, CanGoOn, wakeup_lem, early_task_lem}
use conex.EventLoop.Order.{all_tasks, round_lem, order_lem}

-- The loop waits in `poll`, and its thread has run one task before.
abbrev waiting : EventLoop
waiting = record make_event_loop { phase = polling; ran = 1 ∷ [] }

abbrev history : List Action
history =
    queues false 2
    ∷ polls false
    ∷ queues true 3
    ∷ wakes_up
    ∷ swaps
    ∷ queues false 4
    ∷ runs_task
    ∷ runs_task
    ∷ ends_round
    ∷ []

-- Another thread queues a task before the loop is entered, and one while it waits.
abbrev from_the_start : List Action
from_the_start =
    queues false 2
    ∷ loops
    ∷ wakes_up
    ∷ polls true
    ∷ reads_wakeup
    ∷ queues false 4
    ∷ swaps
    ∷ runs_task
    ∷ runs_task
    ∷ ends_round
    ∷ []

wakeup_lem_example :
    OnSome
      (λ s. s.phase ≡ polling → wanted s ≡ true → CanGoOn s)
      (run from_the_start make_event_loop)
wakeup_lem_example = wakeup_lem from_the_start refl

early_task_here :
    (run (queues true 5 ∷ queues true 6 ∷ loops ∷ []) make_event_loop
      ≡ some (record make_event_loop { phase = polling; pending_tasks = 5 ∷ 6 ∷ [] }))
    × (poll_returns true (record make_event_loop { phase = polling; pending_tasks = 5 ∷ 6 ∷ [] })
        ≡ none)
early_task_here = early_task_lem 5 (6 ∷ [])

order_lem_example : OnSome (λ s. all_tasks s ≡ 1 ∷ 2 ∷ 3 ∷ 4 ∷ []) (run history waiting)
order_lem_example = order_lem history waiting (λ e. refl)

abbrev handlers_done : EventLoop
handlers_done = record waiting { phase = handling; pending_tasks = 5 ∷ 6 ∷ [] }

round_here :
    run (swaps ∷ runs_task ∷ runs_task ∷ ends_round ∷ []) handlers_done
    ≡ some (record handlers_done { phase = polling; pending_tasks = []; ran = 1 ∷ 5 ∷ 6 ∷ [] })
round_here = round_lem handlers_done refl refl
