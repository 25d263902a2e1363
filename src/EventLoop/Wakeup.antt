-- ===== src/EventLoop/Wakeup.antt =====
-- No wakeup is lost.
use conex.Prelude.{
  ℕ, ◌+◌, ◌<◌, ◌≡◌, refl, ap, ◌∙◌, ◌⊎◌, inl, inr, Bool, true, false, not, ◌||◌, Option, none, some,
  List, [], ◌∷◌, ◌++◌, map, append-nil, append_assoc, arith, ltb, ltb→lt, lt→ltb, ltb-false→le,
  Bool-cases, Option-cases, length,
}
use conex.EventLoop.{
  Phase, EventLoop, Action, make_event_loop, loop, poll_returns, handle_read, swap_tasks, run_task,
  tasks_done, queue_in_loop, set_quit, wakeup, act, run, idle, polling, handling, running, loops,
  reads_wakeup, swaps, runs_task, ends_round, wakes_up, polls, queues, quits,
}

-- Something is queued, or the loop is to end.
abbrev pub wanted : EventLoop → Bool
wanted s = not (elim s.pending_tasks [ [] ↦ true | t ∷ ts ↦ false ]) || s.quit

abbrev pub is_running : Phase → Bool
is_running running = true
is_running _ = false

-- The loop's own thread queues a task before it calls `loop`.
abbrev pub queues_early : List Action → Bool
queues_early [] = false
queues_early (loops ∷ rest) = false
queues_early (queues true task ∷ rest) = true
queues_early (a ∷ rest) = queues_early rest

-- A thread that waits in `poll`, or will after its tasks or in `loop`, is woken up if there is
-- anything to do.
abbrev pub Wakes : EventLoop → Type 0
Wakes s = elim s.phase [
  | polling ↦ wanted s ≡ true → 0 < s.wakeups + s.due
  | idle ↦ 0 < length s.pending_tasks → 0 < s.wakeups + s.due
  | running ↦ 0 < length s.pending_tasks → 0 < s.wakeups + s.due
  | _ ↦ Unit {0}
]

abbrev pub OnSome : (EventLoop → Type 0) → Option EventLoop → Type 0
OnSome P none = Unit {0}
OnSome P (some s) = P s

-- `doingPendingTasks_` is set exactly while the tasks run.
pub record IsValid (s : EventLoop) : Type 0 where
  pub doing : s.doing_pending_tasks ≡ is_running s.phase
  pub wakes : Wakes s

act-IsValid :
    (a : Action) (rest : List Action) (s : EventLoop)
    → IsValid s
    → (s.phase ≡ idle → queues_early (a ∷ rest) ≡ false)
    → OnSome IsValid (act a s)
unfolding act loop poll_returns handle_read swap_tasks run_task tasks_done queue_in_loop set_quit
    wakeup
act-IsValid loops rest s v early = ground arith
act-IsValid (polls woken) rest s v early = ground arith
act-IsValid reads_wakeup rest s v early = ground arith
act-IsValid swaps rest s v early = ground arith
act-IsValid runs_task rest s v early = ground arith
act-IsValid ends_round rest s v early = ground arith
act-IsValid (queues true task) rest s v early = ground arith
act-IsValid (queues false task) rest s v early = ground arith
act-IsValid (quits in_loop) rest s v early = ground arith
act-IsValid wakes_up rest s v early = ground arith

act-idle :
    (a : Action) (rest : List Action) (s : EventLoop)
    → (s.phase ≡ idle → queues_early (a ∷ rest) ≡ false)
    → OnSome (λ s'. s'.phase ≡ idle → queues_early rest ≡ false) (act a s)
unfolding act loop poll_returns handle_read swap_tasks run_task tasks_done queue_in_loop set_quit
    wakeup
act-idle loops rest s early = ground arith
act-idle (polls woken) rest s early = ground arith
act-idle reads_wakeup rest s early = ground arith
act-idle swaps rest s early = ground arith
act-idle runs_task rest s early = ground arith
act-idle ends_round rest s early = ground arith
act-idle (queues true task) rest s early = ground arith
act-idle (queues false task) rest s early = ground arith
act-idle (quits in_loop) rest s early = ground arith
act-idle wakes_up rest s early = ground arith

run-IsValid :
    (actions : List Action) (s : EventLoop)
    → IsValid s
    → (s.phase ≡ idle → queues_early actions ≡ false)
    → OnSome IsValid (run actions s)
unfolding run
run-IsValid [] s v early = v
run-IsValid (a ∷ rest) s v early = elim (Option-cases (act a s)) [
  | inl e ↦ rw e tt
  | inr (s', e) ↦ rw e (
      run-IsValid rest s' (rw e at (act-IsValid a rest s v early))
        (rw e at (act-idle a rest s early)))
]

-- The loop can go on: a call of `wakeup` is to come, or `poll` returns with the event descriptor.
abbrev pub CanGoOn : EventLoop → Type 0
CanGoOn s =
    (0 < s.due) ⊎ (poll_returns true s ≡ some (record s { phase = handling; reported = true }))

pub go_on : (s : EventLoop) → IsValid s → s.phase ≡ polling → wanted s ≡ true → CanGoOn s
unfolding poll_returns
go_on s v e w = elim (Bool-cases (ltb 0 s.due)) [
  | inl d ↦ inl (ltb→lt _ _ d)
  | inr d ↦ inr (
      let h = (rw e at v.wakes) w in
      rw (e, lt→ltb 0 s.wakeups (omega (arith, ltb-false→le _ _ d))) refl)
]

-- From a new loop, in any order of the steps of its thread and the others, unless its own thread
-- queues a task before it calls `loop`: whenever it waits in `poll` while a task is queued or it is
-- to quit, a call of `wakeup` is still to come or `poll` returns with the event descriptor. No task
-- waits for an unrelated event.
pub wakeup_lem :
    (actions : List Action)
    → queues_early actions ≡ false
    → OnSome (λ s. s.phase ≡ polling → wanted s ≡ true → CanGoOn s) (run actions make_event_loop)
wakeup_lem actions early =
    let kept = run-IsValid actions make_event_loop (ground arith) (λ i. early) in
    elim (Option-cases (run actions make_event_loop)) [
      | inl e ↦ rw e tt
      | inr (s, e) ↦ rw e (λ p w. go_on s (rw e at kept) p w)
    ]

-- When the loop's own thread queues tasks before it calls `loop`, no wakeup comes: the loop waits
-- in `poll` with the tasks queued, and `poll` does not report the event descriptor.
pub early_task_lem :
    (task : ℕ) (tasks : List ℕ)
    → run (map (queues true) (task ∷ tasks) ++ loops ∷ []) make_event_loop
        ≡ some (record make_event_loop { phase = polling; pending_tasks = task ∷ tasks })
      × (poll_returns true
            (record make_event_loop { phase = polling; pending_tasks = task ∷ tasks })
          ≡ none)
unfolding run act loop queue_in_loop poll_returns
early_task_lem task tasks = (queue_all [] (task ∷ tasks), refl)
  where
    queue_all :
        (before tasks : List ℕ)
        → run
            (map (queues true) tasks ++ loops ∷ [])
            (record make_event_loop { pending_tasks = before })
          ≡ some (record make_event_loop { phase = polling; pending_tasks = before ++ tasks })
    queue_all before [] = rw (append-nil before) refl
    queue_all before (t ∷ ts) =
        queue_all (before ++ t ∷ []) ts
        ∙ ap (λ x. some (record make_event_loop { phase = polling; pending_tasks = x }))
            (append_assoc before (t ∷ []) ts)
