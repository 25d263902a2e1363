-- ===== src/EventLoopThread/Tests.antt =====
-- The thread of EventLoopThread.cc on concrete runs.
use conex.Prelude.{
  ◌+◌, ◌≤◌, ◌≡◌, refl, ◌≢◌, ◌⊎◌, Bool, true, false, some, List, [], ◌∷◌, ◌>>=◌, pos,
}
use conex.EventLoopThread.{
  EventLoopThread, Action, make_event_loop_thread, make_loop, count_latch, enter_loop, leave_loop,
  start_loop, test_latch, destroy, quit_loop, join, loop_step, act, run, quitting, joining,
  destroyed, dangling, returned, counted, looping, finished, makes_loop, counts_latch, enters_loop,
  leaves_loop, starts, tests_latch, destroys, quits_loop, joins, steps,
}
use conex.EventLoopThread.Started.{OnSome, is_counted, start_loop_lem}
use conex.EventLoopThread.Ended.{lost_quit_lem}
use conex.EventLoopThread.Joined.{remaining, CanStep, joins_lem}
use conex.CountDownLatch.{count_down, arrive, test}
use conex.EventLoop.{
  act as loop_act, make_event_loop, loop, poll_returns, handle_read, swap_tasks, run_task,
  tasks_done, queue_in_loop, set_quit, wakeup, polling, left, reads_wakeup, swaps, runs_task,
  ends_round, wakes_up, polls, queues, quits,
}

-- The thread is started and gets as far as the count, and the owner goes on.
abbrev start_up : List Action
start_up = starts ∷ makes_loop ∷ tests_latch ∷ counts_latch ∷ tests_latch ∷ []

abbrev started_up : EventLoopThread
started_up = record make_event_loop_thread {
  caller = returned true;
  place = counted;
  started = true;
  loop_set = true;
  latch = record { count = pos 0; testing = 0; blocked = 0; passed = 1 };
}

starts_up : run start_up make_event_loop_thread ≡ some started_up
unfolding run act start_loop make_loop count_latch test_latch count_down arrive test
starts_up = refl

-- The owner destroys the object at once.
at_once : run (destroys ∷ []) started_up ≡ some (record started_up { caller = quitting })
unfolding run act destroy
at_once = refl

-- The destructor tests `loop_`, the loop ends, as it was told to before, and `quit` comes too late.
too_late :
    run
      (enters_loop
        ∷ steps (quits false)
        ∷ steps wakes_up
        ∷ destroys
        ∷ steps (polls true)
        ∷ steps reads_wakeup
        ∷ steps swaps
        ∷ steps ends_round
        ∷ leaves_loop
        ∷ quits_loop
        ∷ [])
      started_up
    ≡ some (record started_up {
      caller = dangling;
      place = finished;
      loop_set = false;
      event_loop = record make_event_loop { phase = left; quit = true };
    })
unfolding run act enter_loop destroy leave_loop quit_loop loop_step loop loop_act poll_returns
    handle_read swap_tasks tasks_done set_quit wakeup
too_late = refl

start_loop_lem_example :
    OnSome
      (λ t. (set : Bool) → t.caller ≡ returned set → (set ≡ true) × (is_counted t.place ≡ true))
      (run start_up make_event_loop_thread)
start_loop_lem_example = start_loop_lem start_up

lost_quit_lem_example :
    OnSome
      (λ t'. (t'.caller ≡ joining) × (t'.place ≢ finished))
      (run
        (quits_loop
          ∷ enters_loop
          ∷ steps wakes_up
          ∷ steps (polls true)
          ∷ steps reads_wakeup
          ∷ steps swaps
          ∷ [])
        (record started_up { caller = quitting }))
lost_quit_lem_example =
    lost_quit_lem
      (enters_loop ∷ steps wakes_up ∷ steps (polls true) ∷ steps reads_wakeup ∷ steps swaps ∷ [])
      (record started_up { caller = quitting }) refl refl refl refl

-- A loop that waits in `poll` with a task queued.
abbrev waiting : EventLoopThread
waiting = record started_up {
  caller = quitting;
  place = looping;
  event_loop = record make_event_loop { phase = polling; pending_tasks = 7 ∷ []; due = 1 };
}

-- The last round, while another thread queues a task.
abbrev last_round : List Action
last_round =
    steps (queues false 8)
    ∷ steps wakes_up
    ∷ steps (polls true)
    ∷ steps reads_wakeup
    ∷ steps swaps
    ∷ steps runs_task
    ∷ steps runs_task
    ∷ steps ends_round
    ∷ leaves_loop
    ∷ joins
    ∷ []

joins_lem_example :
    OnSome
      (λ t'. (8 + remaining t' ≤ 7 + 1) × ((t'.caller ≡ destroyed) ⊎ CanStep t'))
      (run (quits_loop ∷ last_round) waiting)
joins_lem_example = joins_lem last_round waiting refl refl (λ e. cc)

-- Everything is over then.
all_over : (do t' ← run (quits_loop ∷ last_round) waiting; some t'.caller) ≡ some destroyed
unfolding run act leave_loop quit_loop join loop_step loop_act poll_returns handle_read swap_tasks
    run_task tasks_done queue_in_loop set_quit wakeup
all_over = refl
