-- ===== src/TimerQueue/Fire.antt =====
-- What becomes of the timers that have expired.
use conex.Prelude.{
  ℕ, ◌+◌, ◌≡◌, refl, sym, ap, ◌∙◌, ◌≢◌, ◌↔◌, ◌⊎◌, inl, inr, true, false, Option, none, some, List,
  [], ◌∷◌, ◌++◌, map, append-nil, append_assoc, arith, if◌then◌else◌, ==_refl, ==_false, Bool-cases,
  ◌>>=◌,
}
use conex.TimerQueue.{
  Timer, TimerQueue, Operation, restart, Entry, store, insert_entry, cancel_timer, get_expired,
  run_operations, run_timer, fire, fire_all, set_next, handle_read, cancels,
}
use conex.TimerQueue.Entries.{IsIn, insert_entry-IsIn}
use conex.TimerQueue.Expired.{IsSorted, insert_entry-IsSorted, get_expired-IsSorted}

-- An entry with the timer that its pointer leads to.
abbrev pub Due : Type 0
Due = Entry × Timer

-- A pointer that no entry has.
abbrev pub Apart : ℕ → List Due → Type 0
Apart p [] = Unit {0}
Apart p (d ∷ ds) = (p ≢ d.0.1) × Apart p ds

-- The pointers of the entries differ, and lead to timers that are not canceled.
abbrev pub AreLive : (ℕ → Option Timer) → List Due → Type 0
AreLive heap [] = Unit {0}
AreLive heap (d ∷ ds) =
    (heap d.0.1 ≡ some d.1) × (d.1.canceled ≡ false) × Apart d.0.1 ds × AreLive heap ds

abbrev pub entries : List Due → List Entry
entries ds = map (λ d. d.0) ds

abbrev pub callbacks : List Due → List ℕ
callbacks ds = map (λ d. d.1.callback) ds

-- A timer that repeats is there with its next time, another one is deleted.
abbrev pub AreSettled : (ℕ → Option Timer) → List Due → Type 0
AreSettled heap [] = Unit {0}
AreSettled heap (d ∷ ds) =
    (heap d.0.1 ≡ (if d.1.repeat then some (restart d.1) else none)) × AreSettled heap ds

-- An entry with the next time of a timer that repeats.
abbrev pub Repeats : Entry → List Due → Type 0
Repeats a [] = ⊥
Repeats a (d ∷ ds) =
    ((d.1.repeat ≡ true) × (a ≡ (d.1.when_at + d.1.interval, d.0.1))) ⊎ Repeats a ds

-- The queue after one timer whose callback does nothing to it.
abbrev fired : Due → TimerQueue → TimerQueue
fired d q = record q {
  ran = q.ran ++ d.1.callback ∷ [];
  heap = store d.0.1 (if d.1.repeat then some (restart d.1) else none) q.heap;
  timers = if d.1.repeat then insert_entry ((restart d.1).when_at, d.0.1) q.timers else q.timers;
}

fire_quiet :
    (code : ℕ → List Operation) (d : Due) (q : TimerQueue)
    → ((c : ℕ) → code c ≡ [])
    → q.heap d.0.1 ≡ some d.1
    → d.1.canceled ≡ false
    → fire code d.0 q ≡ some (fired d q)
unfolding fire run_timer run_operations
fire_quiet code d q quiet live ok = elim (Bool-cases d.1.repeat) [
  | inl t ↦ rw (live, ok, quiet d.1.callback, live, ok, t) refl
  | inr t ↦ rw (live, ok, quiet d.1.callback, live, ok, t) refl
]

pub store_apart :
    (p : ℕ) (t : Option Timer) (heap : ℕ → Option Timer) (k : ℕ) → k ≢ p → store p t heap k ≡ heap k
store_apart p t heap k h = rw (==_false k p h) refl

AreLive-store :
    (p : ℕ) (t : Option Timer) (heap : ℕ → Option Timer) (ds : List Due)
    → Apart p ds
    → AreLive heap ds
    → AreLive (store p t heap) ds
AreLive-store p t heap [] a h = tt
AreLive-store p t heap (d ∷ ds) a h = (
  store_apart p t heap d.0.1 (λ e. a.0 (sym e)) ∙ h.0,
  h.1,
  h.2,
  AreLive-store p t heap ds a.1 h.3,
)

-- The outcome of the loop of `handleRead`, with the entries that have not expired.
pub record Fired (ds : List Due) (waiting : List Entry) (q : TimerQueue) (r : Option TimerQueue)
    : Type 0 where
  pub result : TimerQueue
  pub returns : r ≡ some result
  pub ran_is : result.ran ≡ q.ran ++ callbacks ds
  pub sorted : IsSorted result.timers
  pub set_is : (a : Entry) → IsIn a result.timers ↔ (IsIn a waiting ⊎ Repeats a ds)
  pub settled : AreSettled result.heap ds
  pub others : (p : ℕ) → Apart p ds → result.heap p ≡ q.heap p

-- The first timer, and the others.
then_set :
    (set : List Entry) (a : Entry) (d : Due) (ds : List Due) (waiting : List Entry)
    → IsIn a set ↔ (
        IsIn a (if d.1.repeat then insert_entry ((restart d.1).when_at, d.0.1) waiting else waiting)
        ⊎ Repeats a ds)
    → IsIn a set ↔ (IsIn a waiting ⊎ Repeats a (d ∷ ds))
then_set set a d ds waiting (to, from) =
    let (to', from') = insert_entry-IsIn a ((restart d.1).when_at, d.0.1) waiting in
    elim (Bool-cases d.1.repeat) [
      | inl t ↦
          let to1 = rw t at to in
          let from1 = rw t at from in
          (
            λ h. elim (to1 h) [
              | inl k ↦ elim (to' k) [ inl p ↦ inr (inl (t, p)) | inr m ↦ inl m ]
              | inr m ↦ inr (inr m)
            ],
            λ h. elim h [
              | inl m ↦ from1 (inl (from' (inr m)))
              | inr k ↦ elim k [ inl p ↦ from1 (inl (from' (inl p.1))) | inr m ↦ from1 (inr m) ]
            ],
          )
      | inr t ↦
          let to1 = rw t at to in
          let from1 = rw t at from in
          (
            λ h. elim (to1 h) [ inl m ↦ inl m | inr m ↦ inr (inr m) ],
            λ h. elim h [
              | inl m ↦ from1 (inl m)
              | inr k ↦ elim k [ inl p ↦ absurd (ground (arith, p.0, t)) | inr m ↦ from1 (inr m) ]
            ],
          )
    ]

-- The loop runs each callback once, in order.
fire_all_lem :
    (code : ℕ → List Operation) (ds : List Due) (q : TimerQueue)
    → ((c : ℕ) → code c ≡ [])
    → AreLive q.heap ds
    → IsSorted q.timers
    → Fired ds q.timers q (fire_all code (entries ds) q)
unfolding fire_all
fire_all_lem code [] q quiet live sorted = record {
  result = q;
  returns = refl;
  ran_is = sym (append-nil q.ran);
  sorted = sorted;
  set_is = λ a. (λ h. inl h, λ h. elim h [ inl k ↦ k | inr k ↦ absurd k ]);
  settled = tt;
  others = λ p a. refl;
}
fire_all_lem code (d ∷ ds) q quiet live sorted =
    let t = if d.1.repeat then some (restart d.1) else none in
    let q' = fired d q in
    let sorted' : IsSorted q'.timers = elim (Bool-cases d.1.repeat) [
      | inl e ↦ rw e (insert_entry-IsSorted ((restart d.1).when_at, d.0.1) q.timers sorted)
      | inr e ↦ rw e sorted
    ] in
    let r = fire_all_lem code ds q' quiet (AreLive-store d.0.1 t q.heap ds live.2 live.3) sorted' in
    record {
      result = r.result;
      returns =
          ap (λ o. o >>= fire_all code (entries ds)) (fire_quiet code d q quiet live.0 live.1)
          ∙ r.returns;
      ran_is = r.ran_is ∙ append_assoc q.ran (d.1.callback ∷ []) (callbacks ds);
      sorted = r.sorted;
      set_is = λ a. then_set r.result.timers a d ds q.timers (r.set_is a);
      settled = (r.others d.0.1 live.2 ∙ rw (==_refl d.0.1) refl, r.settled);
      others = λ p a. r.others p a.1 ∙ store_apart d.0.1 t q.heap p a.0;
    }

-- `handleRead` at a time, when the timers that have expired are live and not canceled and the
-- callbacks leave the queue alone: each of their callbacks is run once, in the order of the times.
-- A timer that repeats is in the heap and in the set with its next time, and another one is deleted
-- and not in the set. The set stays in order and has the entries that have not expired and nothing
-- else, and other timers are untouched.
pub handle_read_lem :
    (code : ℕ → List Operation) (now : ℕ) (ds : List Due) (q : TimerQueue)
    → ((c : ℕ) → code c ≡ [])
    → IsSorted q.timers
    → (get_expired now q.timers).0 ≡ entries ds
    → AreLive q.heap ds
    → Fired ds (get_expired now q.timers).1 q (handle_read code now q)
unfolding handle_read
handle_read_lem code now ds q quiet sorted due live =
    let q' = record q { timers = (get_expired now q.timers).1 } in
    let r = fire_all_lem code ds q' quiet live (get_expired-IsSorted now q.timers sorted) in
    record {
      result = set_next r.result;
      returns =
          ap (λ es. fire_all code es q' >>= λ s. some (set_next s)) due
          ∙ ap (λ o. o >>= λ s. some (set_next s)) r.returns;
      ran_is = r.ran_is;
      sorted = r.sorted;
      set_is = r.set_is;
      settled = r.settled;
      others = r.others;
    }

-- A live timer whose callback does nothing but cancel it is deleted there, and the loop of
-- `handleRead` uses it afterwards: undefined behaviour.
pub self_cancel :
    (code : ℕ → List Operation) (e : Entry) (t : Timer) (q : TimerQueue)
    → q.heap e.1 ≡ some t
    → t.canceled ≡ false
    → code t.callback ≡ cancels e.1 ∷ []
    → fire code e q ≡ none
unfolding fire run_timer run_operations cancel_timer
self_cancel code e t q live ok c = rw (live, ok, c, live, ==_refl e.1) refl
