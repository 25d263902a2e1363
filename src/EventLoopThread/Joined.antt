-- ===== src/EventLoopThread/Joined.antt =====
-- How the loop of the thread comes to its end.
use conex.Prelude.{
  ℕ, ◌+◌, ◌≤◌, ◌<◌, ◌≡◌, refl, ◌≢◌, ◌⊎◌, inl, inr, Bool, true, false, Option, none, some, List, [],
  ◌∷◌, arith, ltb, Bool-cases, Option-cases, length, length-append,
}
use conex.EventLoopThread.{
  Caller, Place, EventLoopThread, Action, make_loop, count_latch, enter_loop, leave_loop,
  start_loop, test_latch, wake_latch, destroy, quit_loop, join, loop_step, act, run, quitting,
  joining, destroyed, looping, finished, makes_loop, counts_latch, enters_loop, leaves_loop, starts,
  tests_latch, wakes_latch, destroys, quits_loop, joins, steps,
}
use conex.EventLoopThread.Started.{OnSome}
use conex.EventLoopThread.Ended.{told_to_quit, quits_loop-some}
use conex.EventLoop.{
  act as loop_act, Phase, EventLoop, loop, poll_returns, handle_read, swap_tasks, run_task,
  tasks_done, queue_in_loop, set_quit, wakeup, idle, polling, handling, running, left, loops,
  reads_wakeup, swaps, runs_task, ends_round, wakes_up, polls, queues, quits,
}

-- The steps of the loop's thread, and the end of the owner's `join`.
abbrev pub is_thread_step : Action → Bool
is_thread_step leaves_loop = true
is_thread_step joins = true
is_thread_step (steps (polls woken)) = true
is_thread_step (steps reads_wakeup) = true
is_thread_step (steps swaps) = true
is_thread_step (steps runs_task) = true
is_thread_step (steps ends_round) = true
is_thread_step _ = false

abbrev is_queued : Action → Bool
is_queued (steps (queues in_loop task)) = true
is_queued _ = false

abbrev one_if : Bool → ℕ
one_if true = 1
one_if false = 0

abbrev pub thread_steps : List Action → ℕ
thread_steps [] = 0
thread_steps (a ∷ rest) = one_if (is_thread_step a) + thread_steps rest

abbrev pub queued_tasks : List Action → ℕ
queued_tasks [] = 0
queued_tasks (a ∷ rest) = one_if (is_queued a) + queued_tasks rest

-- The steps that a loop still takes that is to quit, and then those of the whole.
abbrev pub loop_remaining : EventLoop → ℕ
loop_remaining e = elim e.phase [
  | left ↦ 2
  | running ↦ 3 + length e.tasks
  | handling ↦ 4 + length e.pending_tasks + one_if e.reported
  | polling ↦ 6 + length e.pending_tasks
  | idle ↦ 0
]

abbrev pub remaining : EventLoopThread → ℕ
remaining t = elim t.caller [
  | destroyed ↦ 0
  | _ ↦ elim t.place [ finished ↦ 1 | _ ↦ loop_remaining t.event_loop ]
]

-- The owner is in `join`, and the loop has been entered and is to quit; or it is over.
abbrev EndsAt : Caller → Place → EventLoop → Type 0
EndsAt joining looping e =
    (e.phase ≢ idle) × (e.quit ≡ true) × (e.phase ≡ polling → 0 < e.wakeups + e.due)
EndsAt joining finished e = Unit {0}
EndsAt destroyed finished e = Unit {0}
EndsAt caller place e = ⊥

abbrev IsEnding : EventLoopThread → Type 0
IsEnding t = EndsAt t.caller t.place t.event_loop

-- A step keeps this, and takes one of those that remain if it is one of the thread's.
act-IsEnding :
    (a : Action) (t : EventLoopThread)
    → IsEnding t
    → OnSome
        (λ t'.
          IsEnding t'
          × (thread_steps (a ∷ []) + remaining t' ≤ remaining t + queued_tasks (a ∷ [])))
        (act a t)
unfolding act make_loop count_latch enter_loop leave_loop start_loop test_latch wake_latch destroy
    quit_loop join loop_step loop_act loop poll_returns handle_read swap_tasks run_task tasks_done
    queue_in_loop set_quit wakeup
act-IsEnding makes_loop t v = ground arith
act-IsEnding counts_latch t v = ground arith
act-IsEnding enters_loop t v = ground arith
act-IsEnding leaves_loop t v = ground arith
act-IsEnding starts t v = ground arith
act-IsEnding tests_latch t v = ground arith
act-IsEnding wakes_latch t v = ground arith
act-IsEnding destroys t v = ground arith
act-IsEnding quits_loop t v = ground arith
act-IsEnding joins t v = ground arith
act-IsEnding (steps loops) t v = ground arith
act-IsEnding (steps (polls woken)) t v = ground arith
act-IsEnding (steps reads_wakeup) t v = ground arith
act-IsEnding (steps swaps) t v = ground arith
act-IsEnding (steps runs_task) t v = ground arith
act-IsEnding (steps ends_round) t v = ground arith
act-IsEnding (steps (queues in_loop task)) t v =
    ground (arith, length-append t.event_loop.pending_tasks (task ∷ []))
act-IsEnding (steps (quits in_loop)) t v = ground arith
act-IsEnding (steps wakes_up) t v = ground arith

-- One of the thread's steps is possible, or a call of `wakeup` that is to come. A return of `poll`
-- that it does not need a wakeup for does not count.
abbrev pub helps : Action → Bool
helps (steps wakes_up) = true
helps (steps (polls false)) = false
helps a = is_thread_step a

abbrev pub is_possible : Option EventLoopThread → Bool
is_possible none = false
is_possible (some t) = true

abbrev pub CanStep : EventLoopThread → Type 0
CanStep t = (a : Action) × (helps a ≡ true) × (is_possible (act a t) ≡ true)

Tasks-cases : (xs : List ℕ) → (xs ≡ []) ⊎ ((x : ℕ) × (ys : List ℕ) × (xs ≡ x ∷ ys))
Tasks-cases [] = inl refl
Tasks-cases (x ∷ xs) = inr (x, xs, refl)

loop-CanStep :
    (phase : Phase) (t : EventLoopThread)
    → t.place ≡ looping
    → t.event_loop.phase ≡ phase
    → phase ≢ idle
    → (phase ≡ polling → 0 < t.event_loop.wakeups + t.event_loop.due)
    → CanStep t
unfolding act leave_loop loop_step loop_act poll_returns handle_read swap_tasks run_task tasks_done
    wakeup
loop-CanStep idle t p e n w = absurd (n refl)
loop-CanStep polling t p e n w = elim (Bool-cases (ltb 0 t.event_loop.wakeups)) [
  | inl k ↦ (steps (polls true), refl, rw (p, e, k) refl)
  | inr k ↦
      let later : ltb 0 t.event_loop.due ≡ true = ground (arith, w refl) in
      (steps wakes_up, refl, rw (p, later) refl)
]
loop-CanStep handling t p e n w = elim (Bool-cases t.event_loop.reported) [
  | inl k ↦ (steps reads_wakeup, refl, rw (p, e, k) refl)
  | inr k ↦ (steps swaps, refl, rw (p, e, k) refl)
]
loop-CanStep running t p e n w = elim (Tasks-cases t.event_loop.tasks) [
  | inl k ↦ (steps ends_round, refl, rw (p, e, k) refl)
  | inr (task, tasks, k) ↦ (steps runs_task, refl, rw (p, e, k) refl)
]
loop-CanStep left t p e n w = (leaves_loop, refl, rw (p, e) refl)

-- The owner's `join` returns once the thread is over.
CanStep-at :
    (caller : Caller) (place : Place) (t : EventLoopThread)
    → t.caller ≡ caller
    → t.place ≡ place
    → EndsAt caller place t.event_loop
    → (t.caller ≡ destroyed) ⊎ CanStep t
unfolding act join
CanStep-at joining looping t c p v = inr (loop-CanStep t.event_loop.phase t p refl v.0 v.2)
CanStep-at joining finished t c p v = inr (joins, refl, rw (c, p) refl)
CanStep-at destroyed finished t c p v = inl c
CanStep-at _ _ t c p v = absurd v

run-IsEnding :
    (actions : List Action) (t : EventLoopThread)
    → IsEnding t
    → OnSome
        (λ t'.
          IsEnding t' × (thread_steps actions + remaining t' ≤ remaining t + queued_tasks actions))
        (run actions t)
unfolding run
run-IsEnding [] t v = (v, omega arith)
run-IsEnding (a ∷ rest) t v = elim (Option-cases (act a t)) [
  | inl e ↦ rw e tt
  | inr (t', e) ↦
      let h = rw e at (act-IsEnding a t v) in
      rw e (more a rest t t' (run rest t') h.1 (run-IsEnding rest t' h.0))
]
  where
    more :
        (a : Action) (rest : List Action) (t t' : EventLoopThread) (r : Option EventLoopThread)
        → thread_steps (a ∷ []) + remaining t' ≤ remaining t + queued_tasks (a ∷ [])
        → OnSome
            (λ t''.
              IsEnding t'' × (thread_steps rest + remaining t'' ≤ remaining t' + queued_tasks rest))
            r
        → OnSome
            (λ t''.
              IsEnding t''
              × (thread_steps (a ∷ rest) + remaining t'' ≤ remaining t + queued_tasks (a ∷ rest)))
            r
    more a rest t t' none one h = tt
    more a rest t t' (some t'') one h = (h.0, omega (arith, one, h.1))

-- When the destructor calls `quit` after the loop has been entered, then in any order of the steps of
-- the loop's thread, of the owner and of others, which may queue tasks and call `quit`: the steps of
-- the loop's thread and the return of `join` are no more than the loop had left, with one more for
-- each task that is queued meanwhile. And at every point the destructor has returned, or one of these
-- steps is possible without a channel that is not the loop's own and without the end of a second, or
-- a call of `wakeup` is still to come. So the loop ends, and `join` returns.
pub joins_lem :
    (actions : List Action) (t : EventLoopThread)
    → t.caller ≡ quitting
    → t.place ≡ looping
    → t.event_loop.phase ≢ idle
    → OnSome
        (λ t'.
          (thread_steps actions + remaining t' ≤ loop_remaining t.event_loop + queued_tasks actions)
          × ((t'.caller ≡ destroyed) ⊎ CanStep t'))
        (run (quits_loop ∷ actions) t)
unfolding run
joins_lem actions t c p n =
    let t' = record t { caller = joining; event_loop = told_to_quit t.event_loop } in
    rw (quits_loop-some t c (inr p))
      (done (run actions t') (run-IsEnding actions t' (rw p (n, refl, λ e. omega arith))))
  where
    ended : EventLoopThread
    ended = record t { caller = joining; event_loop = told_to_quit t.event_loop }

    done :
        (r : Option EventLoopThread)
        → OnSome
            (λ t'.
              IsEnding t'
              × (thread_steps actions + remaining t' ≤ remaining ended + queued_tasks actions))
            r
        → OnSome
            (λ t'.
              (thread_steps actions + remaining t'
                ≤ loop_remaining t.event_loop + queued_tasks actions)
              × ((t'.caller ≡ destroyed) ⊎ CanStep t'))
            r
    done none h = tt
    done (some t') h = (rw p at h.1, CanStep-at t'.caller t'.place t' refl refl h.0)
