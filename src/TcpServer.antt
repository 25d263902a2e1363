-- ===== src/TcpServer.antt =====
-- TcpServer.h and TcpServer.cc: a server with a thread for each loop but the first. A step is a part
-- of the code between two points where the threads may take turns: of the user and the base loop,
-- which are one thread here, or of the thread with an index. What the servers of the loops do is
-- TcpServerSingle.
pub mod Started
pub mod Stopped
mod Tests
use conex.Prelude.{
  ℕ, ◌+◌, ◌-◌, Bool, true, false, not, ◌&&◌, List, [], ◌∷◌, ltb, ◌==◌, if◌then◌else◌,
}

-- Where a thread is: not made, at the parts of `runInThread` up to `loop`, in it, or after it.
pub data Place : Type 0 where
  not_made made registered serving looping finished : Place

-- `quit` is `quit_` of the thread's loop.
pub record Worker : Type 0 where
  pub place : Place
  pub quit : Bool

-- Where the base thread is: before `startInLoop`, at the head of its loop and in the wait for the
-- thread of an index, after it, in the two loops of the destructor, and after it.
pub data Base : Type 0 where
  idle up gone : Base
  spawning waiting quitting joining : ℕ → Base

-- `eventloops_` by size and contents, where a slot that is set points to the loop of its thread, and
-- `threads_` by its size; `starts` is how often `startInLoop` is still to be called.
pub record TcpServer : Type 0 where
  pub base : Base
  pub started : Bool
  pub starts : ℕ
  pub thread_num : ℕ
  pub slots : ℕ → Bool
  pub slot_count : ℕ
  pub threads : ℕ
  pub workers : ℕ → Worker

-- The constructor.
abbrev pub no_worker : Worker
no_worker = record { place = not_made; quit = false }

abbrev pub make_server : TcpServer
make_server = record {
  base = idle;
  started = false;
  starts = 0;
  thread_num = 1;
  slots = λ i. false;
  slot_count = 0;
  threads = 0;
  workers = λ i. no_worker;
}

-- A step that the state does not allow yet, an index out of range, or the state after the step.
pub data Outcome : Type 0 where
  blocked fault : Outcome
  next : TcpServer → Outcome

abbrev pub set_slot : ℕ → Bool → (ℕ → Bool) → ℕ → Bool
set_slot i b slots j = if j == i then b else slots j

abbrev pub set_worker : ℕ → Worker → (ℕ → Worker) → ℕ → Worker
set_worker i w workers j = if j == i then w else workers j

-- `setThreadNum`: `resize` keeps what stays in range.
unfoldable pub set_thread_num : ℕ → TcpServer → Outcome
set_thread_num n s =
    if not s.started
    then next (record s {
      thread_num = n;
      slots = λ i. if ltb i s.slot_count && ltb i n then s.slots i else false;
      slot_count = n;
    })
    else next s

-- `start`: only the first call has `startInLoop` called.
unfoldable pub start : TcpServer → Outcome
start s = if s.started then next s else next (record s { started = true; starts = s.starts + 1 })

-- `startInLoop`, whenever it has been queued: the base server is made and started, and then a thread
-- for each index.
abbrev pub start_base : TcpServer → Outcome
start_base s =
    if s.starts == 0 then blocked else next (record s { base = spawning 1; starts = s.starts - 1 })

unfoldable pub start_in_loop : TcpServer → Outcome
start_in_loop s = elim s.base [ idle ↦ start_base s | up ↦ start_base s | _ ↦ blocked ]

unfoldable pub spawn : TcpServer → Outcome
spawn s = elim s.base [
  | spawning i ↦
      if ltb i s.thread_num
      then next (record s {
        base = waiting i;
        workers = set_worker i (record no_worker { place = made }) s.workers;
      })
      else next (record s { base = up })
  | _ ↦ blocked
]

-- The test of the wait, made whenever the wait ends.
unfoldable pub test_slot : TcpServer → Outcome
test_slot s = elim s.base [
  | waiting i ↦
      if ltb i s.slot_count
      then (if s.slots i
          then next (record s { base = spawning (i + 1); threads = s.threads + 1 })
          else next s)
      else fault
  | _ ↦ blocked
]

-- `runInThread`: the loop is made known under the lock, the callback and the server's start come
-- next, then `loop`, which begins by setting `quit_`, and the slot is cleared after it.
unfoldable pub register : ℕ → TcpServer → Outcome
register i s = elim (s.workers i).place [
  | made ↦
      if ltb i s.slot_count
      then next (record s {
        slots = set_slot i true s.slots;
        workers = set_worker i (record { place = registered; quit = false }) s.workers;
      })
      else fault
  | _ ↦ blocked
]

unfoldable pub serve : ℕ → TcpServer → Outcome
serve i s = elim (s.workers i).place [
  | registered ↦ next (record s {
    workers = set_worker i (record { place = serving; quit = (s.workers i).quit }) s.workers;
  })
  | _ ↦ blocked
]

unfoldable pub enter_loop : ℕ → TcpServer → Outcome
enter_loop i s = elim (s.workers i).place [
  | serving ↦
      next
        (record s { workers = set_worker i (record { place = looping; quit = false }) s.workers })
  | _ ↦ blocked
]

unfoldable pub leave_loop : ℕ → TcpServer → Outcome
leave_loop i s = elim (s.workers i).place [
  | looping ↦
      if (s.workers i).quit
      then next (record s {
        slots = set_slot i false s.slots;
        workers = set_worker i (record { place = finished; quit = true }) s.workers;
      })
      else blocked
  | _ ↦ blocked
]

-- The destructor, when `startInLoop` has returned or has never been called: `quit` of each loop that
-- is set, the test and the call in one step, and `join` of each thread.
unfoldable pub destroy : TcpServer → Outcome
destroy s = elim s.base [
  | up ↦ next (record s { base = quitting 0 })
  | idle ↦ next (record s { base = quitting 0 })
  | _ ↦ blocked
]

abbrev pub told_to_quit : Worker → Worker
told_to_quit w = record w { quit = true }

unfoldable pub quit_next : TcpServer → Outcome
quit_next s = elim s.base [
  | quitting i ↦
      if ltb i s.slot_count
      then (if s.slots i
          then next (record s {
            base = quitting (i + 1);
            workers = set_worker i (told_to_quit (s.workers i)) s.workers;
          })
          else next (record s { base = quitting (i + 1) }))
      else next (record s { base = joining 0 })
  | _ ↦ blocked
]

-- The thread of `threads_[i]` is that of index i + 1.
unfoldable pub join_next : TcpServer → Outcome
join_next s = elim s.base [
  | joining i ↦
      if ltb i s.threads
      then elim (s.workers (i + 1)).place [
        | finished ↦ next (record s { base = joining (i + 1) })
        | _ ↦ blocked
      ]
      else next (record s { base = gone })
  | _ ↦ blocked
]

pub data Action : Type 0 where
  sets_thread_num : ℕ → Action
  starts_server starts_in_loop spawns tests_slot destroys quits_next joins_next : Action
  registers serves enters_loop leaves_loop : ℕ → Action

unfoldable pub act : Action → TcpServer → Outcome
act (sets_thread_num n) s = set_thread_num n s
act starts_server s = start s
act starts_in_loop s = start_in_loop s
act spawns s = spawn s
act tests_slot s = test_slot s
act destroys s = destroy s
act quits_next s = quit_next s
act joins_next s = join_next s
act (registers i) s = register i s
act (serves i) s = serve i s
act (enters_loop i) s = enter_loop i s
act (leaves_loop i) s = leave_loop i s

abbrev pub and_then : Outcome → (TcpServer → Outcome) → Outcome
and_then blocked k = blocked
and_then fault k = fault
and_then (next s) k = k s

unfoldable pub run : List Action → TcpServer → Outcome
run [] s = next s
run (action ∷ actions) s = and_then (act action s) (run actions)
