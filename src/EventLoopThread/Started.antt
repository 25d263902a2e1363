-- ===== src/EventLoopThread/Started.antt =====
-- What `startLoop` returns.

use conex.Prelude.{
  ◌≡◌, ◌≢◌, inl, inr, Bool, true, false, Option, none, some, List, [], ◌∷◌, arith, if◌then◌else◌,
  Option-cases, pos,
}
use conex.EventLoopThread.{
  Caller, Place, EventLoopThread, Action, make_event_loop_thread, make_loop, count_latch,
  enter_loop, leave_loop, start_loop, test_latch, wake_latch, destroy, quit_loop, join, loop_exists,
  loop_step, act, run, new, starting, quitting, joining, returned, not_started, created, registered,
  counted, looping, finished, makes_loop, counts_latch, enters_loop, leaves_loop, starts,
  tests_latch, wakes_latch, destroys, quits_loop, joins, steps,
}
use conex.CountDownLatch.{count_down, arrive, test, wake_up}
use conex.EventLoop.{
  act as loop_act, EventLoop, loop, poll_returns, handle_read, swap_tasks, run_task, tasks_done,
  queue_in_loop, set_quit, wakeup, idle, left, loops, reads_wakeup, swaps, runs_task, ends_round,
  wakes_up, polls, queues, quits,
}

abbrev pub OnSome : (EventLoopThread → Type 0) → Option EventLoopThread → Type 0
OnSome P none = Unit {0}
OnSome P (some t) = P t

-- `latch_.count()` has been called.
abbrev pub is_counted : Place → Bool
is_counted counted = true
is_counted looping = true
is_counted finished = true
is_counted _ = false

-- What holds of the thread and its loop before the owner knows the loop.
abbrev pub Waits : Place → EventLoop → Type 0
Waits not_started e = Unit {0}
Waits created e = Unit {0}
Waits registered e = (e.phase ≡ idle) × (e.quit ≡ false)
Waits counted e = (e.phase ≡ idle) × (e.quit ≡ false)
Waits looping e = (e.phase ≢ left) × (e.quit ≡ false)
Waits finished e = ⊥

-- What holds of the owner.
abbrev pub Owns : Caller → EventLoopThread → Type 0
Owns new t = (t.place ≡ not_started) × (t.latch.passed ≡ 0)
Owns starting t = Waits t.place t.event_loop × (t.latch.passed ≡ 0) × (t.started ≡ true)
Owns (returned set) t = (set ≡ true) × (is_counted t.place ≡ true) × (t.started ≡ true)
Owns quitting t = (is_counted t.place ≡ true)
Owns joining t = (is_counted t.place ≡ true)
Owns _ t = Unit {0}

pub record IsValid (t : EventLoopThread) : Type 0 where
  pub set_is : t.loop_set ≡ loop_exists t.place
  pub latch_is : t.latch.count ≡ (if is_counted t.place then pos 0 else pos 1)
  pub owns : Owns t.caller t

act-IsValid : (a : Action) (t : EventLoopThread) → IsValid t → OnSome IsValid (act a t)
unfolding act make_loop count_latch enter_loop leave_loop start_loop test_latch wake_latch destroy
    quit_loop join loop_step loop_act poll_returns handle_read swap_tasks run_task tasks_done
    queue_in_loop wakeup count_down arrive test wake_up loop set_quit
act-IsValid makes_loop t v = ground arith
act-IsValid counts_latch t v = ground arith
act-IsValid enters_loop t v = ground arith
act-IsValid leaves_loop t v = ground arith
act-IsValid starts t v = ground arith
act-IsValid tests_latch t v = ground arith
act-IsValid wakes_latch t v = ground arith
act-IsValid destroys t v = ground arith
act-IsValid quits_loop t v = ground arith
act-IsValid joins t v = ground arith
act-IsValid (steps loops) t v = ground arith
act-IsValid (steps (polls other)) t v = ground arith
act-IsValid (steps reads_wakeup) t v = ground arith
act-IsValid (steps swaps) t v = ground arith
act-IsValid (steps runs_task) t v = ground arith
act-IsValid (steps ends_round) t v = ground arith
act-IsValid (steps (queues in_loop task)) t v = ground arith
act-IsValid (steps (quits in_loop)) t v = ground arith
act-IsValid (steps wakes_up) t v = ground arith

pub run-IsValid :
    (actions : List Action) (t : EventLoopThread) → IsValid t → OnSome IsValid (run actions t)
unfolding run
run-IsValid [] t v = v
run-IsValid (a ∷ rest) t v = elim (Option-cases (act a t)) [
  | inl e ↦ rw e tt
  | inr (t', e) ↦ rw e (run-IsValid rest t' (rw e at (act-IsValid a t v)))
]

-- From a new object, in any order of the steps of the two threads: when `startLoop` has returned,
-- it has not returned a null pointer, the loop has been made, and `count` has been called.
pub start_loop_lem :
    (actions : List Action)
    → OnSome
        (λ t. (set : Bool) → t.caller ≡ returned set → (set ≡ true) × (is_counted t.place ≡ true))
        (run actions make_event_loop_thread)
start_loop_lem actions =
    split (run actions make_event_loop_thread)
      (run-IsValid actions make_event_loop_thread (ground arith))
  where
    split :
        (r : Option EventLoopThread)
        → OnSome IsValid r
        → OnSome
            (λ t.
              (set : Bool) → t.caller ≡ returned set → (set ≡ true) × (is_counted t.place ≡ true))
            r
    split none v = tt
    split (some t) v = λ set e. let h = rw e at v.owns in (h.0, h.1)
