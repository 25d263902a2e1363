-- ===== src/ThreadPool/Queue.antt =====
-- The queue of the pool: its bound and its order.
use conex.Prelude.{
  ℕ, zero, suc, ◌≤◌, ◌<◌, ◌≡◌, refl, sym, ap, ◌∙◌, inl, inr, Option, none, some, List, [], ◌∷◌,
  ◌++◌, append-nil, append_assoc, arith, Bool-cases, Option-cases, ◌>>=◌, length, length-append,
}
use conex.ThreadPool.{
  Worker, ThreadPool, Action, add_task, stop, take_task, run_in_thread, worker_at, set_worker,
  run_worker, act, run, testing, taking, busy, ended, adds, works, stops,
}

abbrev pub OnSome : (ThreadPool → Type 0) → Option ThreadPool → Type 0
OnSome P none = Unit {0}
OnSome P (some p) = P p

abbrev added : List Action → List ℕ
added [] = []
added (adds task ∷ rest) = task ∷ added rest
added (a ∷ rest) = added rest

-- A pool with threads whose queue is within its bound.
pub record IsPool (max : ℕ) (p : ThreadPool) : Type 0 where
  pub has_threads : 0 < length p.workers
  pub max_is : p.max_queue_size ≡ max
  pub bounded : length p.task_queue ≤ max

pub length-set_worker :
    (i : ℕ) (v : Worker) (ws : List Worker) → length (set_worker i v ws) ≡ length ws
length-set_worker i v [] = refl
length-set_worker zero v (w ∷ ws) = refl
length-set_worker (suc i) v (w ∷ ws) = ap suc (length-set_worker i v ws)

-- What a part of the code does to the queue.
abbrev Moved : ℕ → ThreadPool → List ℕ → ThreadPool → Type 0
Moved max p more p' =
    IsPool max p' × (p'.taken ++ p'.task_queue ≡ (p.taken ++ p.task_queue) ++ more)

add_task_lem :
    (max task : ℕ) (p : ThreadPool)
    → IsPool max p
    → OnSome (Moved max p (task ∷ [])) (add_task task p)
unfolding add_task
add_task_lem max task p v =
    ground
      (arith, length-append p.task_queue (task ∷ []), append_assoc p.taken p.task_queue (task ∷ []))

take_task_moves :
    (queue : List ℕ) (taken : List ℕ) (t : ℕ)
    → (taken ++ t ∷ []) ++ queue ≡ (taken ++ (t ∷ queue)) ++ []
take_task_moves queue taken t =
    append_assoc taken (t ∷ []) queue ∙ sym (append-nil (taken ++ (t ∷ queue)))

-- A part of a thread's loop leaves the list of the threads alone.
abbrev Stepped : ℕ → ThreadPool → Option (Worker × ThreadPool) → Type 0
Stepped max p none = Unit {0}
Stepped max p (some (w, p')) = (p'.workers ≡ p.workers) × Moved max p [] p'

take_task_lem :
    (max : ℕ) (queue : List ℕ) (p : ThreadPool)
    → IsPool max (record p { task_queue = queue })
    → Stepped max (record p { task_queue = queue }) (take_task (record p { task_queue = queue }))
unfolding take_task
take_task_lem max [] p v = elim (Bool-cases p.running) [
  | inl t ↦ rw t tt
  | inr t ↦ rw t (
    refl,
    (
      record { has_threads = v.has_threads; max_is = v.max_is; bounded = v.bounded },
      sym (append-nil (p.taken ++ [])),
    ),
  )
]
take_task_lem max (t ∷ rest) p v = (
  refl,
  (
    record { has_threads = v.has_threads; max_is = v.max_is; bounded = omega (arith, v.bounded) },
    take_task_moves rest p.taken t,
  ),
)

run_in_thread_lem :
    (max : ℕ) (w : Worker) (p : ThreadPool) → IsPool max p → Stepped max p (run_in_thread w p)
unfolding run_in_thread
run_in_thread_lem max testing p v = (refl, (v, sym (append-nil (p.taken ++ p.task_queue))))
run_in_thread_lem max taking p v = take_task_lem max p.task_queue p v
run_in_thread_lem max (busy task) p v = (
  refl,
  (
    record { has_threads = v.has_threads; max_is = v.max_is; bounded = v.bounded },
    sym (append-nil (p.taken ++ p.task_queue)),
  ),
)
run_in_thread_lem max ended p v = tt

run_worker_lem :
    (max i : ℕ) (p : ThreadPool) → IsPool max p → OnSome (Moved max p []) (run_worker i p)
unfolding run_worker
run_worker_lem max i p v = elim (Option-cases (worker_at i p.workers)) [
  | inl e ↦ rw e tt
  | inr (w, e) ↦ rw e (go (run_in_thread w p) (run_in_thread_lem max w p v))
]
  where
    go :
        (r : Option (Worker × ThreadPool))
        → Stepped max p r
        → OnSome
            (Moved max p [])
            (r >>= λ x. some (record x.1 { workers = set_worker i x.0 x.1.workers }))
    go none h = tt
    go (some (w, p')) h = (
      record {
        has_threads = omega (arith, length-set_worker i w p'.workers, h.1.0.has_threads);
        max_is = h.1.0.max_is;
        bounded = h.1.0.bounded;
      },
      h.1.1,
    )

act_lem :
    (max : ℕ) (a : Action) (p : ThreadPool)
    → IsPool max p
    → OnSome (Moved max p (added (a ∷ []))) (act a p)
unfolding act stop
act_lem max (adds task) p v = add_task_lem max task p v
act_lem max (works i) p v = run_worker_lem max i p v
act_lem max stops p v = (
  record { has_threads = v.has_threads; max_is = v.max_is; bounded = v.bounded },
  sym (append-nil (p.taken ++ p.task_queue)),
)

added-cons : (a : Action) (rest : List Action) → added (a ∷ rest) ≡ added (a ∷ []) ++ added rest
added-cons (adds task) rest = refl
added-cons _ rest = refl

-- A pool with threads and a queue within its bound, in any order of the steps of its threads and
-- of those that add tasks: the queue stays within the bound, and the tasks that were taken and
-- those in the queue are, in this order, the ones there were before and then the ones added.
pub queue_lem :
    (max : ℕ) (actions : List Action) (p : ThreadPool)
    → IsPool max p
    → OnSome
        (λ p'.
          (length p'.task_queue ≤ max)
          × (p'.taken ++ p'.task_queue ≡ (p.taken ++ p.task_queue) ++ added actions))
        (run actions p)
unfolding run
queue_lem max [] p v = (v.bounded, sym (append-nil (p.taken ++ p.task_queue)))
queue_lem max (a ∷ rest) p v = elim (Option-cases (act a p)) [
  | inl e ↦ rw e tt
  | inr (p', e) ↦
      let (v', one) = rw e at (act_lem max a p v) in
      rw e (then_more (run rest p') p' one (queue_lem max rest p' v'))
]
  where
    then_more :
        (r : Option ThreadPool) (p' : ThreadPool)
        → p'.taken ++ p'.task_queue ≡ (p.taken ++ p.task_queue) ++ added (a ∷ [])
        → OnSome
            (λ q.
              (length q.task_queue ≤ max)
              × (q.taken ++ q.task_queue ≡ (p'.taken ++ p'.task_queue) ++ added rest))
            r
        → OnSome
            (λ q.
              (length q.task_queue ≤ max)
              × (q.taken ++ q.task_queue ≡ (p.taken ++ p.task_queue) ++ added (a ∷ rest)))
            r
    then_more none p' one h = tt
    then_more (some q) p' one h = (
      h.0,
      h.1
          ∙ ap (λ x. x ++ added rest) one
          ∙ append_assoc (p.taken ++ p.task_queue) (added (a ∷ [])) (added rest)
          ∙ ap (λ x. (p.taken ++ p.task_queue) ++ x) (sym (added-cons a rest)),
    )
