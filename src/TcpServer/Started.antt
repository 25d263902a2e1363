-- ===== src/TcpServer/Started.antt =====
-- What `start` comes to.
use conex.Prelude.{
  ℕ, ◌+◌, ◌-◌, ◌≤◌, ◌<◌, ◌≡◌, Bool, true, false, ◌&&◌, List, [], ◌∷◌, arith, ltb, if◌then◌else◌,
}
use conex.TcpServer.{
  Place, Base, TcpServer, Outcome, Action, make_server, set_thread_num, start, start_in_loop, spawn,
  test_slot, register, serve, enter_loop, leave_loop, destroy, quit_next, join_next, act, and_then,
  run, not_made, made, registered, serving, looping, idle, up, spawning, waiting, blocked, fault,
  next, sets_thread_num, starts_server, starts_in_loop, spawns, tests_slot, destroys, quits_next,
  joins_next, registers, serves, enters_loop, leaves_loop,
}

-- `runInThread` has made its loop known and has not cleared the slot.
abbrev pub is_set : Place → Bool
is_set registered = true
is_set serving = true
is_set looping = true
is_set _ = false

abbrev pub is_made : Place → Bool
is_made not_made = false
is_made _ = true

abbrev pub is_known : Place → Bool
is_known not_made = false
is_known made = false
is_known _ = true

abbrev waits : Base → Bool
waits (waiting i) = true
waits _ = false

-- What holds at an index: there is a thread of it if it is one of `threads_`, or the next one while
-- the base thread waits; those of `threads_` are known, and a slot is set while the thread has it.
pub record IsAt (s : TcpServer) (i : ℕ) : Type 0 where
  pub made_is :
      is_made (s.workers i).place
      ≡ (ltb 0 i && ltb i (if waits s.base then s.threads + 2 else s.threads + 1))
  pub known : 0 < i → i ≤ s.threads → is_known (s.workers i).place ≡ true
  pub slot_is : s.slots i ≡ is_set (s.workers i).place

-- What holds of the base thread at each place.
abbrev pub BaseAt : Base → TcpServer → Type 0
BaseAt idle s = (s.threads ≡ 0) × (s.starts ≤ 1) × (s.started ≡ false → s.starts ≡ 0)
BaseAt (spawning i) s =
    (i ≡ s.threads + 1) × (s.threads ≤ s.thread_num - 1) × (s.starts ≡ 0) × (s.started ≡ true)
BaseAt (waiting i) s =
    (i ≡ s.threads + 1) × (i < s.thread_num) × (s.starts ≡ 0) × (s.started ≡ true)
BaseAt up s = (s.threads ≡ s.thread_num - 1) × (s.starts ≡ 0) × (s.started ≡ true)
BaseAt _ s = s.started ≡ false → s.threads ≡ 0

pub record IsBase (s : TcpServer) : Type 0 where
  pub base_at : BaseAt s.base s
  pub slots_fit : 1 < s.thread_num → s.thread_num ≤ s.slot_count

abbrev pub OnNext : (TcpServer → Type 0) → Outcome → Type 0
OnNext P blocked = Unit {0}
OnNext P fault = ⊥
OnNext P (next s) = P s

-- The index that a step is about.
abbrev pub index_of : Action → TcpServer → ℕ
index_of (registers j) s = j
index_of (serves j) s = j
index_of (enters_loop j) s = j
index_of (leaves_loop j) s = j
index_of _ s = s.threads + 1

act-IsBase :
    (a : Action) (s : TcpServer) → IsBase s → IsAt s (index_of a s) → OnNext IsBase (act a s)
unfolding act set_thread_num start start_in_loop spawn test_slot register serve enter_loop
    leave_loop destroy quit_next join_next
act-IsBase (sets_thread_num n) s v w = ground arith
act-IsBase starts_server s v w = ground arith
act-IsBase starts_in_loop s v w = ground arith
act-IsBase spawns s v w = ground arith
act-IsBase tests_slot s v w = ground arith
act-IsBase destroys s v w = ground arith
act-IsBase quits_next s v w = ground arith
act-IsBase joins_next s v w = ground arith
act-IsBase (registers j) s v w = ground arith
act-IsBase (serves j) s v w = ground arith
act-IsBase (enters_loop j) s v w = ground arith
act-IsBase (leaves_loop j) s v w = ground arith

act-IsAt :
    (a : Action) (s : TcpServer) (i : ℕ)
    → IsBase s
    → IsAt s (index_of a s)
    → IsAt s i
    → OnNext (λ s'. IsAt s' i) (act a s)
unfolding act set_thread_num start start_in_loop spawn test_slot register serve enter_loop
    leave_loop destroy quit_next join_next
act-IsAt (sets_thread_num n) s i v w u = ground arith
act-IsAt starts_server s i v w u = ground arith
act-IsAt starts_in_loop s i v w u = ground arith
act-IsAt spawns s i v w u = ground arith
act-IsAt tests_slot s i v w u = ground arith
act-IsAt destroys s i v w u = ground arith
act-IsAt quits_next s i v w u = ground arith
act-IsAt joins_next s i v w u = ground arith
act-IsAt (registers j) s i v w u = ground arith
act-IsAt (serves j) s i v w u = ground arith
act-IsAt (enters_loop j) s i v w u = ground arith
act-IsAt (leaves_loop j) s i v w u = ground arith

abbrev pub IsValid : TcpServer → Type 0
IsValid s = IsBase s × ((i : ℕ) → IsAt s i)

-- What is shown of the base thread and of each index.
both : (o : Outcome) → OnNext IsBase o → ((i : ℕ) → OnNext (λ s. IsAt s i) o) → OnNext IsValid o
both blocked h k = tt
both fault h k = h
both (next s) h k = (h, k)

pub act-IsValid : (a : Action) (s : TcpServer) → IsValid s → OnNext IsValid (act a s)
act-IsValid a s (v, w) =
    both (act a s) (act-IsBase a s v (w (index_of a s)))
      (λ i. act-IsAt a s i v (w (index_of a s)) (w i))

-- What holds after one step and is kept by the others holds after them.
pub and_then-OnNext :
    (P Q : TcpServer → Type 0) (o : Outcome) (k : TcpServer → Outcome)
    → OnNext P o
    → ((s : TcpServer) → P s → OnNext Q (k s))
    → OnNext Q (and_then o k)
and_then-OnNext P Q blocked k h f = tt
and_then-OnNext P Q fault k h f = h
and_then-OnNext P Q (next s) k h f = f s h

-- An invariant of the steps is one of their sequences.
pub run-OnNext :
    (P : TcpServer → Type 0)
    → ((a : Action) (s : TcpServer) → P s → OnNext P (act a s))
    → (actions : List Action) (s : TcpServer) → P s
    → OnNext P (run actions s)
unfolding run
run-OnNext P keep [] s h = h
run-OnNext P keep (a ∷ rest) s h =
    and_then-OnNext P P (act a s) (run rest) (keep a s h) (run-OnNext P keep rest)

make_server-IsValid : IsValid make_server
make_server-IsValid = (ground arith, λ i. ground arith)

-- The threads of a server that has started: one for each index up to the number that was set.
pub record Started (s : TcpServer) : Type 0 where
  pub count : s.threads ≡ s.thread_num - 1
  pub running : (i : ℕ) → 0 < i → i < s.thread_num → is_known (s.workers i).place ≡ true
  pub no_more : (i : ℕ) → s.thread_num ≤ i → 0 < i → (s.workers i).place ≡ not_made
  pub slots_are : (i : ℕ) → s.slots i ≡ is_set (s.workers i).place

-- From a new server, whatever number of threads is set and however often `start` is called, in any
-- order of the steps of its threads: no index is out of range, and once `startInLoop` has returned
-- there is one thread for each index from 1 up to the number set, no other one, each has made its
-- loop known, and a slot is set exactly as long as the thread has its loop.
pub start_lem :
    (actions : List Action) → OnNext (λ s. s.base ≡ up → Started s) (run actions make_server)
start_lem actions =
    weaken (run actions make_server)
      (run-OnNext IsValid act-IsValid actions make_server make_server-IsValid)
  where
    started : (s : TcpServer) → IsValid s → s.base ≡ up → Started s
    started s (v, w) e = record {
      count = ground arith;
      running = λ i h k. let u = w i in ground arith;
      no_more = λ i h k. let u = w i in ground arith;
      slots_are = λ i. (w i).slot_is;
    }

    weaken : (o : Outcome) → OnNext IsValid o → OnNext (λ s. s.base ≡ up → Started s) o
    weaken blocked h = tt
    weaken fault h = h
    weaken (next s) h = started s h
