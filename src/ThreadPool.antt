-- ===== src/ThreadPool.antt =====
-- ThreadPool.h and ThreadPool.cc: a bounded queue of tasks and the threads that take them. A task
-- is a number. A step is a part of the code between two points where the threads may take turns;
-- a step that waits, or that the state does not allow, is `none`.
pub mod Queue
pub mod Start
mod Tests
use conex.Prelude.{
  ℕ, zero, suc, Bool, false, Option, none, some, List, [], ◌∷◌, ◌++◌, leb, if◌then◌else◌, ◌>>=◌,
  ◌>>◌, length, replicate,
}

-- Where a thread is: at the test of its loop, in `take`, with a task, or at its end.
pub data Worker : Type 0 where
  testing taking : Worker
  busy : ℕ → Worker
  ended : Worker

-- `taken` is the tasks that `take` has given out, and `ran` those that have been called.
pub record ThreadPool : Type 0 where
  pub workers : List Worker
  pub running : Bool
  pub max_queue_size : ℕ
  pub task_queue : List ℕ
  pub taken : List ℕ
  pub ran : List ℕ

-- The constructor.
abbrev pub make_thread_pool : ℕ → ℕ → ThreadPool
make_thread_pool thread_num max_queue_size = record {
  workers = replicate thread_num testing;
  running = false;
  max_queue_size = max_queue_size;
  task_queue = [];
  taken = [];
  ran = [];
}

-- `addTask` calls the task itself when there are no threads, and waits while the queue is full.
unfoldable pub add_task : ℕ → ThreadPool → Option ThreadPool
add_task task p = elim p.workers [
  | [] ↦ some (record p { ran = p.ran ++ task ∷ [] })
  | w ∷ ws ↦
      if leb p.max_queue_size (length p.task_queue)
      then none
      else some (record p { task_queue = p.task_queue ++ task ∷ [] })
]

-- `stop`, up to the joins.
unfoldable pub stop : ThreadPool → ThreadPool
stop p = record p { running = false }

-- `take`: it waits on an empty queue of a running pool; without a task the loop goes round.
unfoldable pub take_task : ThreadPool → Option (Worker × ThreadPool)
take_task p = elim p.task_queue [
  | [] ↦ if p.running then none else some (testing, p)
  | task ∷ rest ↦ some (busy task, record p { task_queue = rest; taken = p.taken ++ task ∷ [] })
]

-- The loop of `runInThread`, one part of it.
unfoldable pub run_in_thread : Worker → ThreadPool → Option (Worker × ThreadPool)
run_in_thread testing p = some (if p.running then taking else ended, p)
run_in_thread taking p = take_task p
run_in_thread (busy task) p = some (testing, record p { ran = p.ran ++ task ∷ [] })
run_in_thread ended p = none

abbrev pub worker_at : ℕ → List Worker → Option Worker
worker_at i [] = none
worker_at zero (w ∷ ws) = some w
worker_at (suc i) (w ∷ ws) = worker_at i ws

abbrev pub set_worker : ℕ → Worker → List Worker → List Worker
set_worker i v [] = []
set_worker zero v (w ∷ ws) = v ∷ ws
set_worker (suc i) v (w ∷ ws) = w ∷ set_worker i v ws

-- The next part of the loop of one of the threads.
unfoldable pub run_worker : ℕ → ThreadPool → Option ThreadPool
run_worker i p = do
  w ← worker_at i p.workers
  (w', p') ← run_in_thread w p
  some (record p' { workers = set_worker i w' p'.workers })

pub data Action : Type 0 where
  adds : ℕ → Action
  works : ℕ → Action
  stops : Action

unfoldable pub act : Action → ThreadPool → Option ThreadPool
act (adds task) p = add_task task p
act (works i) p = run_worker i p
act stops p = some (stop p)

unfoldable pub run : List Action → ThreadPool → Option ThreadPool
run [] p = some p
run (a ∷ rest) p = do p' ← act a p; run rest p'
