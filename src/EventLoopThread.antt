-- ===== src/EventLoopThread.antt =====
-- EventLoopThread.h and EventLoopThread.cc: a thread that runs an EventLoop, and the thread that
-- owns the object, starts the loop and destroys the object. A step is a part of the code between two
-- points where the threads may take turns; a step that the state does not allow is `none`.
pub mod Started
pub mod Ended
pub mod Joined
mod Tests
use mathlib.Core.Option
use conex.Prelude.{
  Bool, true, false, ◌&&◌, Option, none, some, List, [], ◌∷◌, map, ◌==◌, if◌then◌else◌, ◌>>=◌, ◌>>◌,
  pos,
}
use conex.CountDownLatch.{CountDownLatch, make_latch, count_down, arrive, test, wake_up}
use conex.EventLoop.{
  Action as LoopAction, act as loop_act, EventLoop, make_event_loop, loop, set_quit, left, loops,
  queues, quits,
}

-- Where the owner is: before `startLoop`, in the wait of `startLoop`, after it returned a pointer
-- that is not null or a null one, in the destructor before `quit` and in `join`, and after it.
-- `dangling` is a call of `quit` on a loop that is gone, which is undefined.
pub data Caller : Type 0 where
  new starting quitting joining destroyed dangling : Caller
  returned : Bool → Caller

-- Where the thread is: not started, at the three statements of `threadFunc` before `loop`, in
-- `loop`, or after `threadFunc`, where its loop is gone.
pub data Place : Type 0 where
  not_started created registered counted looping finished : Place

-- `loop` tells whether `loop_` is set, and `event_loop` is the object it points to.
pub record EventLoopThread : Type 0 where
  pub caller : Caller
  pub place : Place
  pub started : Bool
  pub loop_set : Bool
  pub latch : CountDownLatch
  pub event_loop : EventLoop

-- The constructor.
abbrev pub make_event_loop_thread : EventLoopThread
make_event_loop_thread = record {
  caller = new;
  place = not_started;
  started = false;
  loop_set = false;
  latch = make_latch (pos 1);
  event_loop = make_event_loop;
}

-- `threadFunc`, one statement after the other.
unfoldable pub make_loop : EventLoopThread → Option EventLoopThread
make_loop t = elim t.place [
  | created ↦ some (record t { place = registered; loop_set = true; event_loop = make_event_loop })
  | _ ↦ none
]

abbrev pub counted_with : EventLoopThread → CountDownLatch → EventLoopThread
counted_with t latch = record t { place = counted; latch = latch }

unfoldable pub count_latch : EventLoopThread → Option EventLoopThread
count_latch t = elim t.place [
  | registered ↦ Option.map (counted_with t) (count_down t.latch)
  | _ ↦ none
]

unfoldable pub enter_loop : EventLoopThread → Option EventLoopThread
enter_loop t = elim t.place [
  | counted ↦ Option.map (λ e. record t { place = looping; event_loop = e }) (loop t.event_loop)
  | _ ↦ none
]

unfoldable pub leave_loop : EventLoopThread → Option EventLoopThread
leave_loop t = elim t.place [
  | looping ↦ elim t.event_loop.phase [
    | left ↦ some (record t { place = finished; loop_set = false })
    | _ ↦ none
  ]
  | _ ↦ none
]

-- `startLoop`: the thread is started, and the wait of the latch goes through its test.
unfoldable pub start_loop : EventLoopThread → Option EventLoopThread
start_loop t = elim t.caller [
  | new ↦
      some (record t { caller = starting; place = created; started = true; latch = arrive t.latch })
  | _ ↦ none
]

-- The test of the loop of `wait` is made by the owner, who is the one that waits.
abbrev pub tested_with : EventLoopThread → CountDownLatch → EventLoopThread
tested_with t latch =
    if latch.passed == 0
    then record t { latch = latch }
    else record t { caller = returned t.loop_set; latch = latch }

unfoldable pub test_latch : EventLoopThread → Option EventLoopThread
test_latch t = elim t.caller [ starting ↦ Option.map (tested_with t) (test t.latch) | _ ↦ none ]

unfoldable pub wake_latch : EventLoopThread → Option EventLoopThread
wake_latch t = Option.map (λ latch. record t { latch = latch }) (wake_up t.latch)

-- The destructor: the tests of `started_` and `loop_`, the call of `quit`, and `join`.
unfoldable pub destroy : EventLoopThread → Option EventLoopThread
destroy t = elim t.caller [
  | new ↦ some (record t { caller = destroyed })
  | returned set ↦ some (record t {
    caller = if t.started then if t.loop_set then quitting else joining else destroyed;
  })
  | _ ↦ none
]

unfoldable pub quit_loop : EventLoopThread → Option EventLoopThread
quit_loop t = elim t.caller [
  | quitting ↦ elim t.place [
    | finished ↦ some (record t { caller = dangling })
    | _ ↦
        Option.map (λ e. record t { caller = joining; event_loop = e })
          (set_quit false t.event_loop)
  ]
  | _ ↦ none
]

unfoldable pub join : EventLoopThread → Option EventLoopThread
join t = elim t.caller [
  | joining ↦ elim t.place [ finished ↦ some (record t { caller = destroyed }) | _ ↦ none ]
  | _ ↦ none
]

-- The steps of the loop. Nobody but the owner can call it, or make it run anything, before the
-- pointer to it has been returned.
abbrev pub is_known : Caller → Bool
is_known new = false
is_known starting = false
is_known _ = true

-- In `loop` the thread makes the loop's own steps; `wakeup` comes due for other threads.
abbrev pub is_allowed : LoopAction → EventLoopThread → Bool
is_allowed loops t = false
is_allowed (queues in_loop task) t = is_known t.caller
is_allowed (quits in_loop) t = is_known t.caller
is_allowed _ t = true

abbrev pub loop_exists : Place → Bool
loop_exists not_started = false
loop_exists created = false
loop_exists finished = false
loop_exists _ = true

unfoldable pub loop_step : LoopAction → EventLoopThread → Option EventLoopThread
loop_step a t =
    if loop_exists t.place && is_allowed a t
    then Option.map (λ e. record t { event_loop = e }) (loop_act a t.event_loop)
    else none

pub data Action : Type 0 where
  makes_loop counts_latch enters_loop leaves_loop : Action
  starts tests_latch wakes_latch destroys quits_loop joins : Action
  steps : LoopAction → Action

unfoldable pub act : Action → EventLoopThread → Option EventLoopThread
act makes_loop t = make_loop t
act counts_latch t = count_latch t
act enters_loop t = enter_loop t
act leaves_loop t = leave_loop t
act starts t = start_loop t
act tests_latch t = test_latch t
act wakes_latch t = wake_latch t
act destroys t = destroy t
act quits_loop t = quit_loop t
act joins t = join t
act (steps a) t = loop_step a t

unfoldable pub run : List Action → EventLoopThread → Option EventLoopThread
run [] t = some t
run (action ∷ actions) t = do t' ← act action t; run actions t'
