-- ===== src/ThreadPool/Start.antt =====
-- What the threads of a new pool do: `running_` is false from the start and never set.
use conex.Prelude.{◌<◌, ◌≡◌, false, List, [], ◌∷◌, length}
use conex.ThreadPool.{Worker, ThreadPool, testing, ended}

-- A thread that has taken nothing.
abbrev IsIdle : Worker → Type 0
IsIdle testing = Unit {0}
IsIdle ended = Unit {0}
IsIdle _ = ⊥

abbrev AreIdle : List Worker → Type 0
AreIdle [] = Unit {0}
AreIdle (w ∷ ws) = IsIdle w × AreIdle ws

-- Nothing runs, and there are threads.
record IsStill (p : ThreadPool) : Type 0 where
  stopped : p.running ≡ false
  has_threads : 0 < length p.workers
  idle : AreIdle p.workers
  none_ran : p.ran ≡ []
