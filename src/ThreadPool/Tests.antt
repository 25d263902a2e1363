-- ===== src/ThreadPool/Tests.antt =====
-- The theorems on a pool of two threads and a queue of two tasks.
use conex.Prelude.{◌≤◌, ◌≡◌, true, List, [], ◌∷◌, ◌++◌, arith, length}
use conex.ThreadPool.{ThreadPool, Action, make_thread_pool, run, adds, works}
use conex.ThreadPool.Queue.{OnSome, queue_lem}

-- A pool that runs.
abbrev pool : ThreadPool
pool = record (make_thread_pool 2 2) { running = true }

abbrev history : List Action
history = adds 1 ∷ works 0 ∷ adds 2 ∷ works 0 ∷ adds 3 ∷ works 1 ∷ works 1 ∷ works 0 ∷ []

queue_lem_example :
    OnSome
      (λ p. (length p.task_queue ≤ 2) × (p.taken ++ p.task_queue ≡ 1 ∷ 2 ∷ 3 ∷ []))
      (run history pool)
queue_lem_example = queue_lem 2 history pool (omega arith)
