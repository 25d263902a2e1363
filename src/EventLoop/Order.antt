-- ===== src/EventLoop/Order.antt =====
-- Tasks are run once each, in the order in which they were queued.
use conex.Prelude.{
  ℕ, ◌≡◌, refl, sym, ap, ◌∙◌, inl, inr, true, false, Option, none, some, List, [], ◌∷◌, ◌++◌,
  append-nil, append_assoc, arith, Option-cases, length, replicate,
}
use conex.EventLoop.{
  Phase, EventLoop, Action, next_round, loop, poll_returns, handle_read, swap_tasks, run_task,
  tasks_done, queue_in_loop, set_quit, wakeup, act, run, handling, running, loops, reads_wakeup,
  swaps, runs_task, ends_round, wakes_up, polls, queues, quits,
}
use conex.EventLoop.Wakeup.{is_running, OnSome}

abbrev queued : List Action → List ℕ
queued [] = []
queued (queues in_loop task ∷ rest) = task ∷ queued rest
queued (a ∷ rest) = queued rest

-- All tasks: those that ran, those of the round and those that wait.
abbrev pub all_tasks : EventLoop → List ℕ
all_tasks s = s.ran ++ (s.tasks ++ s.pending_tasks)

-- Only a running round has tasks.
abbrev pub IsTidy : EventLoop → Type 0
IsTidy s = is_running s.phase ≡ false → s.tasks ≡ []

assoc3 : (a b c d : List ℕ) → a ++ (b ++ (c ++ d)) ≡ a ++ (b ++ c) ++ d
assoc3 a b c d = ap (λ x. a ++ x) (sym (append_assoc b c d)) ∙ sym (append_assoc a (b ++ c) d)

-- Running a task moves it from the round to what ran.
task_moves :
    (phase : Phase) (tasks : List ℕ) (s : EventLoop)
    → (is_running phase ≡ false → tasks ≡ [])
    → OnSome
        (λ s'. IsTidy s' × (all_tasks s' ≡ (s.ran ++ (tasks ++ s.pending_tasks)) ++ []))
        (run_task (record s { phase = phase; tasks = tasks }))
unfolding run_task
task_moves running [] s h = tt
task_moves running (t ∷ ts) s h = (
  λ e. ground arith,
  append_assoc s.ran (t ∷ []) (ts ++ s.pending_tasks)
      ∙ sym (append-nil (s.ran ++ (t ∷ (ts ++ s.pending_tasks)))),
)
task_moves _ ts s h = tt

act-ordered :
    (a : Action) (s : EventLoop)
    → IsTidy s
    → OnSome (λ s'. IsTidy s' × (all_tasks s' ≡ all_tasks s ++ queued (a ∷ []))) (act a s)
unfolding act loop poll_returns handle_read swap_tasks run_task tasks_done queue_in_loop set_quit
    wakeup
act-ordered loops s h = ground (arith, append-nil (all_tasks s))
act-ordered (polls other) s h = ground (arith, append-nil (all_tasks s))
act-ordered reads_wakeup s h = ground (arith, append-nil (all_tasks s))
act-ordered swaps s h = grind (arith, append-nil s.pending_tasks, append-nil (all_tasks s))
act-ordered runs_task s h = task_moves s.phase s.tasks s h
act-ordered ends_round s h = ground (arith, append-nil (all_tasks s))
act-ordered (queues in_loop task) s h =
    ground (arith, assoc3 s.ran s.tasks s.pending_tasks (task ∷ []))
act-ordered (quits in_loop) s h = ground (arith, append-nil (all_tasks s))
act-ordered wakes_up s h = ground (arith, append-nil (all_tasks s))

tasks_run :
    (tasks : List ℕ) (r : EventLoop)
    → r.phase ≡ running
    → run (replicate (length tasks) runs_task ++ ends_round ∷ []) (record r { tasks = tasks })
      ≡ some
          (next_round (record r { doing_pending_tasks = false; tasks = []; ran = r.ran ++ tasks }))
unfolding run act run_task tasks_done
tasks_run [] r e = rw (e, append-nil r.ran) refl
tasks_run (t ∷ ts) r e = rw e (
    tasks_run ts (record r { ran = r.ran ++ t ∷ [] }) e
    ∙ ap (λ x. some (next_round (record r { doing_pending_tasks = false; tasks = []; ran = x })))
        (append_assoc r.ran (t ∷ []) ts))

-- From a state between the handlers and the tasks of a round, the thread runs every task that
-- waits, in order, and ends the round.
pub round_lem :
    (s : EventLoop)
    → s.phase ≡ handling
    → s.reported ≡ false
    → run (swaps ∷ (replicate (length s.pending_tasks) runs_task ++ ends_round ∷ [])) s
      ≡ some (
          next_round (record s {
            pending_tasks = [];
            doing_pending_tasks = false;
            tasks = [];
            ran = s.ran ++ s.pending_tasks;
          }))
unfolding run act swap_tasks
round_lem s e r =
    rw (e, r)
      (tasks_run s.pending_tasks
        (record s {
          phase = running;
          pending_tasks = [];
          doing_pending_tasks = true;
          reported = false;
        })
        refl)

queued-cons : (a : Action) (rest : List Action) → queued (a ∷ rest) ≡ queued (a ∷ []) ++ queued rest
queued-cons (queues in_loop task) rest = refl
queued-cons _ rest = refl

-- Whatever the order of the steps of the loop's thread and the others: the tasks that ran, those
-- of the round and those that wait are, in this order, the ones there were before and then the
-- ones queued since, each once. So it is from a state with no tasks left over between two rounds.
pub order_lem :
    (actions : List Action) (s : EventLoop)
    → (is_running s.phase ≡ false → s.tasks ≡ [])
    → OnSome (λ s'. all_tasks s' ≡ all_tasks s ++ queued actions) (run actions s)
unfolding run
order_lem [] s h = sym (append-nil (all_tasks s))
order_lem (a ∷ rest) s h = elim (Option-cases (act a s)) [
  | inl e ↦ rw e tt
  | inr (s', e) ↦
      let (tidy, one) = rw e at (act-ordered a s h) in
      rw e (then_more a rest (run rest s') s s' one (order_lem rest s' tidy))
]
  where
    then_more :
        (a : Action) (rest : List Action) (r : Option EventLoop) (s s' : EventLoop)
        → all_tasks s' ≡ all_tasks s ++ queued (a ∷ [])
        → OnSome (λ t. all_tasks t ≡ all_tasks s' ++ queued rest) r
        → OnSome (λ t. all_tasks t ≡ all_tasks s ++ queued (a ∷ rest)) r
    then_more a rest none s s' one h = tt
    then_more a rest (some t) s s' one h =
        h
        ∙ ap (λ x. x ++ queued rest) one
        ∙ append_assoc (all_tasks s) (queued (a ∷ [])) (queued rest)
        ∙ ap (λ x. all_tasks s ++ x) (sym (queued-cons a rest))
