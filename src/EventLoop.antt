-- ===== src/EventLoop.antt =====
-- EventLoop.h and EventLoop.cc: the loop of one thread, and the other threads that queue tasks for
-- it. A task is a number. A step is a part of the code between two points where the threads may
-- take turns; a step that the state does not allow is `none`.
pub mod Wakeup
pub mod Order
pub mod Timers
mod Tests
use conex.Prelude.{
  ℕ, ◌+◌, ◌-◌, Bool, true, false, not, ◌&&◌, ◌||◌, Option, none, some, List, [], ◌∷◌, ◌++◌, ltb,
  if◌then◌else◌, ◌>>=◌, ◌>>◌,
}

-- Where the loop's thread is: before `loop`, in `poll`, in the handlers of the active channels, in
-- `doPendingTasks`, or after `loop`.
pub data Phase : Type 0 where
  idle polling handling running left : Phase

-- `tasks` is the local list of `doPendingTasks`, and `ran` what has been called. `wakeups` is the
-- counter of the event descriptor, and `due` how many calls of `wakeup` are still to come.
-- `reported` tells whether `poll` has reported the event descriptor and its handler is to come.
pub record EventLoop : Type 0 where
  pub phase : Phase
  pub quit : Bool
  pub pending_tasks : List ℕ
  pub doing_pending_tasks : Bool
  pub tasks : List ℕ
  pub ran : List ℕ
  pub wakeups : ℕ
  pub reported : Bool
  pub due : ℕ

-- The constructor.
abbrev pub make_event_loop : EventLoop
make_event_loop = record {
  phase = idle;
  quit = false;
  pending_tasks = [];
  doing_pending_tasks = false;
  tasks = [];
  ran = [];
  wakeups = 0;
  reported = false;
  due = 0;
}

-- The test of the loop, `while(!quit_)`.
abbrev pub next_round : EventLoop → EventLoop
next_round s = record s { phase = if s.quit then left else polling }

-- `loop` up to the first `poll`.
unfoldable pub loop : EventLoop → Option EventLoop
loop s = elim s.phase [ idle ↦ some (next_round (record s { quit = false })) | _ ↦ none ]

-- `poll` returns with the event descriptor, if it can be read, among the channels that it reports;
-- or with other channels only, or after a second.
unfoldable pub poll_returns : Bool → EventLoop → Option EventLoop
poll_returns woken s = elim s.phase [
  | polling ↦
      if not woken || ltb 0 s.wakeups
      then some (record s { phase = handling; reported = woken })
      else none
  | _ ↦ none
]

-- `handleRead` of the event descriptor, if it was reported.
unfoldable pub handle_read : EventLoop → Option EventLoop
handle_read s = elim s.phase [
  | handling ↦ if s.reported then some (record s { wakeups = 0; reported = false }) else none
  | _ ↦ none
]

-- `doPendingTasks`, after the handlers: the swap under the lock, each task in turn, and the end of
-- the round.
unfoldable pub swap_tasks : EventLoop → Option EventLoop
swap_tasks s = elim s.phase [
  | handling ↦
      if s.reported
      then none
      else some (record s {
        phase = running;
        tasks = s.pending_tasks;
        pending_tasks = [];
        doing_pending_tasks = true;
      })
  | _ ↦ none
]

unfoldable pub run_task : EventLoop → Option EventLoop
run_task s = elim s.phase [
  | running ↦ elim s.tasks [
    | [] ↦ none
    | task ∷ tasks ↦ some (record s { tasks = tasks; ran = s.ran ++ task ∷ [] })
  ]
  | _ ↦ none
]

unfoldable pub tasks_done : EventLoop → Option EventLoop
tasks_done s = elim s.phase [
  | running ↦ elim s.tasks [
    | [] ↦ some (next_round (record s { doing_pending_tasks = false }))
    | task ∷ tasks ↦ none
  ]
  | _ ↦ none
]

-- The thread of the loop runs code of its own in its handlers and tasks, and before and after.
abbrev pub is_busy : Phase → Bool
is_busy polling = false
is_busy _ = true

-- `queueInLoop`: the task is queued under the lock; the call of `wakeup` comes later.
unfoldable pub queue_in_loop : Bool → ℕ → EventLoop → Option EventLoop
queue_in_loop in_loop task s =
    if in_loop && not (is_busy s.phase)
    then none
    else some (record s {
      pending_tasks = s.pending_tasks ++ task ∷ [];
      due = if not in_loop || s.doing_pending_tasks then s.due + 1 else s.due;
    })

-- `runInLoop` calls the task at once in the loop's thread.
unfoldable pub run_in_loop : Bool → ℕ → EventLoop → Option EventLoop
run_in_loop true task s =
    if is_busy s.phase then some (record s { ran = s.ran ++ task ∷ [] }) else none
run_in_loop false task s = queue_in_loop false task s

-- `quit`, and a call of `wakeup` that comes due.
unfoldable pub set_quit : Bool → EventLoop → Option EventLoop
set_quit in_loop s =
    if in_loop && not (is_busy s.phase)
    then none
    else some (record s { quit = true; due = if not in_loop then s.due + 1 else s.due })

unfoldable pub wakeup : EventLoop → Option EventLoop
wakeup s =
    if ltb 0 s.due then some (record s { due = s.due - 1; wakeups = s.wakeups + 1 }) else none

pub data Action : Type 0 where
  loops reads_wakeup swaps runs_task ends_round wakes_up : Action
  polls : Bool → Action
  queues : Bool → ℕ → Action
  quits : Bool → Action

unfoldable pub act : Action → EventLoop → Option EventLoop
act loops s = loop s
act (polls other) s = poll_returns other s
act reads_wakeup s = handle_read s
act swaps s = swap_tasks s
act runs_task s = run_task s
act ends_round s = tasks_done s
act (queues in_loop task) s = queue_in_loop in_loop task s
act (quits in_loop) s = set_quit in_loop s
act wakes_up s = wakeup s

unfoldable pub run : List Action → EventLoop → Option EventLoop
run [] s = some s
run (action ∷ actions) s = do s' ← act action s; run actions s'
