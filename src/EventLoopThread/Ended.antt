-- ===== src/EventLoopThread/Ended.antt =====
-- How the destructor ends the thread.
use conex.Prelude.{
  ◌+◌, ◌≡◌, refl, ◌≢◌, ◌⊎◌, inl, inr, Bool, true, false, ◌||◌, Option, none, some, List, [], ◌∷◌,
  arith, Option-cases,
}
use conex.EventLoopThread.{
  Place, EventLoopThread, Action, make_loop, count_latch, enter_loop, leave_loop, start_loop,
  test_latch, wake_latch, destroy, quit_loop, join, loop_step, act, run, quitting, joining, counted,
  looping, finished, makes_loop, counts_latch, enters_loop, leaves_loop, starts, tests_latch,
  wakes_latch, destroys, quits_loop, joins, steps,
}
use conex.EventLoopThread.Started.{OnSome}
use conex.EventLoop.{
  act as loop_act, EventLoop, loop, poll_returns, handle_read, swap_tasks, run_task, tasks_done,
  queue_in_loop, set_quit, wakeup, idle, left, loops, reads_wakeup, swaps, runs_task, ends_round,
  wakes_up, polls, queues, quits,
}

abbrev pub has_quits : List Action → Bool
has_quits [] = false
has_quits (steps (quits in_loop) ∷ rest) = true
has_quits (a ∷ rest) = has_quits rest

-- The owner waits in `join`, and the loop is not entered yet, or it is not to end.
abbrev Stuck : Place → EventLoop → Type 0
Stuck counted e = e.phase ≡ idle
Stuck looping e = (e.phase ≢ left) × (e.quit ≡ false)
Stuck _ e = ⊥

record IsStuck (t : EventLoopThread) : Type 0 where
  pub waits : t.caller ≡ joining
  pub stuck : Stuck t.place t.event_loop

act-IsStuck :
    (a : Action) (t : EventLoopThread)
    → has_quits (a ∷ []) ≡ false
    → IsStuck t
    → OnSome IsStuck (act a t)
unfolding act make_loop count_latch enter_loop leave_loop start_loop test_latch wake_latch destroy
    quit_loop join loop_step loop_act loop poll_returns handle_read swap_tasks run_task tasks_done
    queue_in_loop set_quit wakeup
act-IsStuck makes_loop t h v = ground arith
act-IsStuck counts_latch t h v = ground arith
act-IsStuck enters_loop t h v = ground arith
act-IsStuck leaves_loop t h v = ground arith
act-IsStuck starts t h v = ground arith
act-IsStuck tests_latch t h v = ground arith
act-IsStuck wakes_latch t h v = ground arith
act-IsStuck destroys t h v = ground arith
act-IsStuck quits_loop t h v = ground arith
act-IsStuck joins t h v = ground arith
act-IsStuck (steps loops) t h v = ground arith
act-IsStuck (steps (polls other)) t h v = ground arith
act-IsStuck (steps reads_wakeup) t h v = ground arith
act-IsStuck (steps swaps) t h v = ground arith
act-IsStuck (steps runs_task) t h v = ground arith
act-IsStuck (steps ends_round) t h v = ground arith
act-IsStuck (steps (queues in_loop task)) t h v = ground arith
act-IsStuck (steps (quits in_loop)) t h v = ground arith
act-IsStuck (steps wakes_up) t h v = ground arith

has_quits-cons :
    (a : Action) (rest : List Action)
    → has_quits (a ∷ rest) ≡ (has_quits (a ∷ []) || has_quits rest)
has_quits-cons (steps (quits in_loop)) rest = refl
has_quits-cons _ rest = refl

run-IsStuck :
    (actions : List Action) (t : EventLoopThread)
    → has_quits actions ≡ false
    → IsStuck t
    → OnSome IsStuck (run actions t)
unfolding run
run-IsStuck [] t h v = v
run-IsStuck (a ∷ rest) t h v =
    let both = rw (has_quits-cons a rest) at h in
    elim (Option-cases (act a t)) [
      | inl e ↦ rw e tt
      | inr (t', e) ↦
          rw e (run-IsStuck rest t' (ground arith) (rw e at (act-IsStuck a t (ground arith) v)))
    ]

-- The destructor's call of `quit`.
abbrev pub told_to_quit : EventLoop → EventLoop
told_to_quit e = record e { quit = true; due = e.due + 1 }

pub quits_loop-some :
    (t : EventLoopThread)
    → t.caller ≡ quitting
    → (t.place ≡ counted) ⊎ (t.place ≡ looping)
    → act quits_loop t
      ≡ some (record t { caller = joining; event_loop = told_to_quit t.event_loop })
unfolding act quit_loop set_quit
quits_loop-some t c p = ground arith

-- When the destructor calls `quit` after the thread has called `count` and before it enters
-- `loop`, the destructor does not return: `loop` forgets the call, and unless somebody calls `quit`
-- again the owner stays in `join` and the thread does not end, in any order of the steps.
pub lost_quit_lem :
    (actions : List Action) (t : EventLoopThread)
    → t.caller ≡ quitting
    → t.place ≡ counted
    → t.event_loop.phase ≡ idle
    → has_quits actions ≡ false
    → OnSome (λ t'. (t'.caller ≡ joining) × (t'.place ≢ finished)) (run (quits_loop ∷ actions) t)
unfolding run
lost_quit_lem actions t c p i h =
    rw (quits_loop-some t c (inl p))
      (stuck (run actions quitted) (run-IsStuck actions quitted h (ground arith)))
  where
    quitted : EventLoopThread
    quitted = record t { caller = joining; event_loop = told_to_quit t.event_loop }

    stuck :
        (r : Option EventLoopThread)
        → OnSome IsStuck r
        → OnSome (λ t'. (t'.caller ≡ joining) × (t'.place ≢ finished)) r
    stuck none v = tt
    stuck (some t') v = ground arith
