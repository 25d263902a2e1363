-- ===== src/TimerQueue.antt =====
-- Timer.h, TimerQueue.h and TimerQueue.cc. A time is a count of nanoseconds and a pointer a number,
-- null at zero; the heap says which timer a pointer leads to, and has none where it was deleted or
-- never allocated. The use of such a pointer is undefined in C++ and `none` here. The queue's
-- functions run in the loop's thread, so their tasks run at once.
pub mod Expired
pub mod Entries
pub mod Fire
pub mod Duration
pub mod Cancel
pub mod Armed
pub mod Live
pub mod Firing
pub mod Safe
mod Tests
use conex.Prelude.{
  ℕ, suc, ◌+◌, ◌-◌, ◌/◌, ◌%◌, Bool, true, false, not, ◌&&◌, ◌||◌, Option, none, some, List, [], ◌∷◌,
  ◌++◌, ltb, leb, ◌==◌, if◌then◌else◌, ◌>>=◌, ◌>>◌,
}

pub record Timer : Type 0 where
  pub when_at : ℕ
  pub interval : ℕ
  pub callback : ℕ
  pub repeat : Bool
  pub canceled : Bool

-- The constructor, `expired`, `restart` and `cancel`.
abbrev pub make_timer : ℕ → ℕ → ℕ → Timer
make_timer callback when_at interval = record {
  when_at = when_at;
  interval = interval;
  callback = callback;
  repeat = ltb 0 interval;
  canceled = false;
}

abbrev pub expired : ℕ → Timer → Bool
expired now t = leb t.when_at now

abbrev pub restart : Timer → Timer
restart t = record t { when_at = t.when_at + t.interval }

abbrev pub cancel : Timer → Timer
cancel t = record t { canceled = true }

-- `durationFromNow`: seconds and nanoseconds. A time that has passed makes a negative difference,
-- which is less than a millisecond as well.
abbrev pub millisecond : ℕ
millisecond = 1000000

abbrev pub second : ℕ
second = 1000000000

unfoldable pub duration_from_now : ℕ → ℕ → ℕ × ℕ
duration_from_now now when_at =
    let ns = if ltb (when_at - now) millisecond then millisecond else when_at - now in
    (ns / second, ns % second)

abbrev pub Entry : Type 0
Entry = ℕ × ℕ

-- `std::pair` compares its first members, then its second ones.
abbrev pub entry_ltb : Entry → Entry → Bool
entry_ltb a b = ltb a.0 b.0 || (a.0 == b.0 && ltb a.1 b.1)

-- The queue, the times that `timerfdSet` was given, and the callbacks that were run.
pub record TimerQueue : Type 0 where
  pub timers : List Entry
  pub heap : ℕ → Option Timer
  pub next_pointer : ℕ
  pub settings : List ℕ
  pub ran : List ℕ

abbrev pub make_timer_queue : TimerQueue
make_timer_queue = record {
  timers = [];
  heap = λ p. none;
  next_pointer = 1;
  settings = [];
  ran = [];
}

abbrev pub store : ℕ → Option Timer → (ℕ → Option Timer) → ℕ → Option Timer
store p t heap q = if q == p then t else heap q

-- `timers_.insert` and `timers_.erase`, on a `std::set`.
unfoldable pub insert_entry : Entry → List Entry → List Entry
insert_entry e [] = e ∷ []
insert_entry e (f ∷ fs) =
    let rest = insert_entry e fs in
    if entry_ltb e f then e ∷ f ∷ fs else (if entry_ltb f e then f ∷ rest else f ∷ fs)

unfoldable pub erase_entry : Entry → List Entry → List Entry
erase_entry e [] = []
erase_entry e (f ∷ fs) =
    let rest = erase_entry e fs in if entry_ltb e f || entry_ltb f e then f ∷ rest else fs

-- Whether the entry that was inserted is the first.
abbrev pub is_front : Entry → List Entry → Bool
is_front e [] = false
is_front e (f ∷ fs) = not (entry_ltb e f || entry_ltb f e)

-- `addTimer`, and the pointer it returns.
unfoldable pub add_timer : ℕ → ℕ → ℕ → TimerQueue → ℕ × TimerQueue
add_timer callback when_at interval q =
    let p = q.next_pointer in
    let timers = insert_entry (when_at, p) q.timers in
    (
      p,
      record q {
        heap = store p (some (make_timer callback when_at interval)) q.heap;
        next_pointer = suc p;
        timers = timers;
        settings = if is_front (when_at, p) timers then q.settings ++ when_at ∷ [] else q.settings;
      },
    )

-- `cancelTimer`.
unfoldable pub cancel_timer : ℕ → TimerQueue → Option TimerQueue
cancel_timer p q = do
  t ← q.heap p
  some (record q {
    timers = erase_entry ((cancel t).when_at, p) q.timers;
    heap = store p none q.heap;
  })

-- The destructor deletes the timers of the set.
unfoldable pub delete_all : List Entry → (ℕ → Option Timer) → Option (ℕ → Option Timer)
delete_all [] heap = some heap
delete_all (e ∷ es) heap = do t ← heap e.1; delete_all es (store e.1 none heap)

-- The entries below a key, and the others: what `lower_bound` parts.
unfoldable pub part : Entry → List Entry → List Entry × List Entry
part key [] = ([], [])
part key (e ∷ es) =
    let rest = part key es in if entry_ltb e key then (e ∷ rest.0, rest.1) else ([], e ∷ es)

-- `getExpired`: the key is one nanosecond after now, with a null pointer.
unfoldable pub get_expired : ℕ → List Entry → List Entry × List Entry
get_expired now timers = part (now + 1, 0) timers

-- What a callback does to the queue: it may add timers and cancel them.
pub data Operation : Type 0 where
  adds : ℕ → ℕ → ℕ → Operation
  cancels : ℕ → Operation

unfoldable pub run_operations : List Operation → TimerQueue → Option TimerQueue
run_operations [] q = some q
run_operations (adds callback when_at interval ∷ rest) q =
    run_operations rest (add_timer callback when_at interval q).1
run_operations (cancels p ∷ rest) q = do q' ← cancel_timer p q; run_operations rest q'

-- `run`.
unfoldable pub run_timer : (ℕ → List Operation) → Timer → TimerQueue → Option TimerQueue
run_timer code t q = run_operations (code t.callback) (record q { ran = q.ran ++ t.callback ∷ [] })

-- The loop of `handleRead` for one expired entry.
unfoldable pub fire : (ℕ → List Operation) → Entry → TimerQueue → Option TimerQueue
fire code e q = do
  t ← q.heap e.1
  q' ← elim t.canceled [ true ↦ some q | false ↦ run_timer code t q ]
  t' ← q'.heap e.1
  some (
      if not t'.canceled && t'.repeat
      then record q' {
        heap = store e.1 (some (restart t')) q'.heap;
        timers = insert_entry ((restart t').when_at, e.1) q'.timers;
      }
      else record q' { heap = store e.1 none q'.heap })

unfoldable pub fire_all : (ℕ → List Operation) → List Entry → TimerQueue → Option TimerQueue
fire_all code [] q = some q
fire_all code (e ∷ es) q = do q' ← fire code e q; fire_all code es q'

-- The time of the first entry goes to the timer descriptor.
abbrev pub set_next : TimerQueue → TimerQueue
set_next q = record q {
  settings = elim q.timers [ [] ↦ q.settings | e ∷ es ↦ q.settings ++ e.0 ∷ [] ];
}

-- `handleRead`.
unfoldable pub handle_read : (ℕ → List Operation) → ℕ → TimerQueue → Option TimerQueue
handle_read code now q = do
  let (due, rest) = get_expired now q.timers
  q' ← fire_all code due (record q { timers = rest })
  some (set_next q')
