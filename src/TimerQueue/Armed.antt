-- ===== src/TimerQueue/Armed.antt =====
-- The time that the timer descriptor is set to, against the earliest timer.
use conex.Prelude.{
  ℕ, ◌≤◌, ◌≡◌, refl, inl, inr, false, not, ◌&&◌, ◌||◌, Option, none, some, List, [], ◌∷◌, ◌++◌,
  arith, if◌then◌else◌, Bool-cases, Option-cases, ◌>>=◌,
}
use conex.TimerQueue.{
  TimerQueue, Operation, restart, Entry, entry_ltb, make_timer_queue, store, insert_entry,
  erase_entry, is_front, add_timer, cancel_timer, get_expired, run_operations, run_timer, fire,
  fire_all, set_next, handle_read, adds, cancels,
}
use conex.TimerQueue.Expired.{AllAfter, IsSorted, insert_entry-IsSorted, get_expired-IsSorted}

abbrev pub OnSome : (TimerQueue → Type 0) → Option TimerQueue → Type 0
OnSome P none = Unit {0}
OnSome P (some q) = P q

-- What is kept along a chain of results.
then-OnSome :
    (P Q : TimerQueue → Type 0) (r : Option TimerQueue) (f : TimerQueue → Option TimerQueue)
    → OnSome P r
    → ((q : TimerQueue) → P q → OnSome Q (f q))
    → OnSome Q (r >>= f)
then-OnSome P Q none f h k = tt
then-OnSome P Q (some q) f h k = k q h

abbrev pub last_of : List ℕ → Option ℕ
last_of [] = none
last_of (t ∷ []) = some t
last_of (t ∷ u ∷ us) = last_of (u ∷ us)

last_of-append : (ts : List ℕ) (t : ℕ) → last_of (ts ++ t ∷ []) ≡ some t
last_of-append [] t = refl
last_of-append (u ∷ []) t = refl
last_of-append (u ∷ v ∷ vs) t = last_of-append (v ∷ vs) t

AllAfter-erase : (a e : Entry) (es : List Entry) → AllAfter a es → AllAfter a (erase_entry e es)
unfolding erase_entry
AllAfter-erase a e [] h = tt
AllAfter-erase a e (f ∷ fs) h = ground (arith, AllAfter-erase a e fs h.1)

erase_entry-IsSorted : (e : Entry) (es : List Entry) → IsSorted es → IsSorted (erase_entry e es)
unfolding erase_entry
erase_entry-IsSorted e [] h = tt
erase_entry-IsSorted e (f ∷ fs) h = elim (Bool-cases (entry_ltb e f || entry_ltb f e)) [
  | inl t ↦ rw t (AllAfter-erase f e fs h.0, erase_entry-IsSorted e fs h.1)
  | inr t ↦ rw t h.1
]

abbrev pub Sorted : TimerQueue → Type 0
Sorted q = IsSorted q.timers

add_timer-Sorted :
    (callback time interval : ℕ) (q : TimerQueue)
    → Sorted q
    → Sorted (add_timer callback time interval q).1
unfolding add_timer
add_timer-Sorted callback time interval q h =
    insert_entry-IsSorted (time, q.next_pointer) q.timers h

cancel_timer-Sorted : (p : ℕ) (q : TimerQueue) → Sorted q → OnSome Sorted (cancel_timer p q)
unfolding cancel_timer
cancel_timer-Sorted p q h = elim (Option-cases (q.heap p)) [
  | inl e ↦ rw e tt
  | inr (t, e) ↦ rw e (erase_entry-IsSorted (t.when_at, p) q.timers h)
]

run_operations-Sorted :
    (ops : List Operation) (q : TimerQueue) → Sorted q → OnSome Sorted (run_operations ops q)
unfolding run_operations
run_operations-Sorted [] q h = h
run_operations-Sorted (adds callback time interval ∷ rest) q h =
    run_operations-Sorted rest (add_timer callback time interval q).1
      (add_timer-Sorted callback time interval q h)
run_operations-Sorted (cancels p ∷ rest) q h =
    then-OnSome Sorted Sorted (cancel_timer p q) (run_operations rest) (cancel_timer-Sorted p q h)
      (run_operations-Sorted rest)

-- The end of a round of the loop of `handleRead`.
settle : Entry → TimerQueue → Option TimerQueue
settle e q' = do
  t' ← q'.heap e.1
  some (
      if not t'.canceled && t'.repeat
      then record q' {
        heap = store e.1 (some (restart t')) q'.heap;
        timers = insert_entry ((restart t').when_at, e.1) q'.timers;
      }
      else record q' { heap = store e.1 none q'.heap })

settle-Sorted : (e : Entry) (q : TimerQueue) → Sorted q → OnSome Sorted (settle e q)
unfolding settle
settle-Sorted e q h = elim (Option-cases (q.heap e.1)) [
  | inl n ↦ rw n tt
  | inr (t, s) ↦ rw s (elim (Bool-cases (not t.canceled && t.repeat)) [
    | inl b ↦ rw b (insert_entry-IsSorted ((restart t).when_at, e.1) q.timers h)
    | inr b ↦ rw b h
  ])
]

fire-Sorted :
    (code : ℕ → List Operation) (e : Entry) (q : TimerQueue)
    → Sorted q
    → OnSome Sorted (fire code e q)
unfolding fire settle run_timer
fire-Sorted code e q h = elim (Option-cases (q.heap e.1)) [
  | inl n ↦ rw n tt
  | inr (t, s) ↦ rw s (elim (Bool-cases t.canceled) [
    | inl b ↦ rw b (settle-Sorted e q h)
    | inr b ↦ rw b (
        let q' = record q { ran = q.ran ++ t.callback ∷ [] } in
        then-OnSome Sorted Sorted (run_operations (code t.callback) q') (settle e)
          (run_operations-Sorted (code t.callback) q' h) (settle-Sorted e))
  ])
]

fire_all-Sorted :
    (code : ℕ → List Operation) (es : List Entry) (q : TimerQueue)
    → Sorted q
    → OnSome Sorted (fire_all code es q)
unfolding fire_all
fire_all-Sorted code [] q h = h
fire_all-Sorted code (e ∷ es) q h =
    then-OnSome Sorted Sorted (fire code e q) (fire_all code es) (fire-Sorted code e q h)
      (fire_all-Sorted code es)

-- The last setting is not later than the first timer.
abbrev pub Reaches : List Entry → List ℕ → Type 0
Reaches [] settings = Unit {0}
Reaches (e ∷ es) settings = (t : ℕ) × (last_of settings ≡ some t) × (t ≤ e.0)

abbrev pub IsArmed : TimerQueue → Type 0
IsArmed q = IsSorted q.timers × Reaches q.timers q.settings

entry_ltb_irrefl : (e : Entry) → entry_ltb e e ≡ false
entry_ltb_irrefl e = ground arith

insert-Reaches :
    (e : Entry) (es : List Entry) (settings : List ℕ)
    → Reaches es settings
    → let ts = insert_entry e es in
      Reaches ts (if is_front e ts then settings ++ e.0 ∷ [] else settings)
unfolding insert_entry
insert-Reaches e [] settings h =
    rw (entry_ltb_irrefl e) (e.0, last_of-append settings e.0, omega arith)
insert-Reaches e (f ∷ fs) settings h = elim (Bool-cases (entry_ltb e f)) [
  | inl t ↦ rw t (rw (entry_ltb_irrefl e) (e.0, last_of-append settings e.0, omega arith))
  | inr t ↦ elim (Bool-cases (entry_ltb f e)) [
    | inl u ↦ rw (t, u) (rw (t, u) h)
    | inr u ↦ rw (t, u) (rw (t, u) (e.0, last_of-append settings e.0, ground arith))
  ]
]

erase-Reaches :
    (e : Entry) (es : List Entry) (settings : List ℕ)
    → IsSorted es
    → Reaches es settings
    → Reaches (erase_entry e es) settings
unfolding erase_entry
erase-Reaches e [] settings s h = tt
erase-Reaches e (f ∷ []) settings s h = ground arith
erase-Reaches e (f ∷ g ∷ gs) settings s h = elim (Bool-cases (entry_ltb e f || entry_ltb f e)) [
  | inl t ↦ rw t h
  | inr t ↦ let later = s.0.0 in rw t (h.0, h.1, ground arith)
]

set_next-Reaches : (q : TimerQueue) → Reaches (set_next q).timers (set_next q).settings
set_next-Reaches q = first q.timers
  where
    first :
        (es : List Entry)
        → Reaches es (elim es [ [] ↦ q.settings | e ∷ rest ↦ q.settings ++ e.0 ∷ [] ])
    first [] = tt
    first (e ∷ es) = (e.0, last_of-append q.settings e.0, omega arith)

-- What the loop's thread does to the queue: timers are added and canceled, also in callbacks, and the
-- timer descriptor can be read.
pub data Action : Type 0 where
  adds_timer : ℕ → ℕ → ℕ → Action
  cancels_timer : ℕ → Action
  expires : (ℕ → List Operation) → ℕ → Action

unfoldable pub act : Action → TimerQueue → Option TimerQueue
act (adds_timer callback time interval) q = some (add_timer callback time interval q).1
act (cancels_timer p) q = cancel_timer p q
act (expires code now) q = handle_read code now q

unfoldable pub run : List Action → TimerQueue → Option TimerQueue
run [] q = some q
run (a ∷ rest) q = act a q >>= run rest

act-IsArmed : (a : Action) (q : TimerQueue) → IsArmed q → OnSome IsArmed (act a q)
unfolding act add_timer cancel_timer handle_read
act-IsArmed (adds_timer callback time interval) q (s, r) = (
  insert_entry-IsSorted (time, q.next_pointer) q.timers s,
  insert-Reaches (time, q.next_pointer) q.timers q.settings r,
)
act-IsArmed (cancels_timer p) q (s, r) = elim (Option-cases (q.heap p)) [
  | inl e ↦ rw e tt
  | inr (t, e) ↦ rw e (
    erase_entry-IsSorted (t.when_at, p) q.timers s,
    erase-Reaches (t.when_at, p) q.timers q.settings s r,
  )
]
act-IsArmed (expires code now) q (s, r) =
    let due = (get_expired now q.timers).0 in
    let q' = record q { timers = (get_expired now q.timers).1 } in
    then-OnSome Sorted IsArmed (fire_all code due q') (λ q''. some (set_next q''))
      (fire_all-Sorted code due q' (get_expired-IsSorted now q.timers s))
      (λ q'' h. (h, set_next-Reaches q''))

-- From a new queue, whatever timers are added and canceled, also by callbacks, and whenever the timer
-- descriptor is read: as long as nothing undefined is done, the timers are in order, and if there
-- are any, the time that the descriptor was last set to is not later than the first of them. No
-- timer is missed.
pub armed_lem : (actions : List Action) → OnSome IsArmed (run actions make_timer_queue)
unfolding run
armed_lem actions = from actions make_timer_queue (tt, tt)
  where
    from : (actions : List Action) (q : TimerQueue) → IsArmed q → OnSome IsArmed (run actions q)
    from [] q h = h
    from (a ∷ rest) q h =
        then-OnSome IsArmed IsArmed (act a q) (run rest) (act-IsArmed a q h) (from rest)
