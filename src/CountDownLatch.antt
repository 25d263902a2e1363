-- ===== src/CountDownLatch.antt =====
-- CountDownLatch.h. A step is a part of the code under the lock; `none` is a step that the state
-- does not allow, or the overflow of the counter.
pub mod Passing
mod Tests
use conex.Prelude.{
  ℕ, ◌+◌, ◌-◌, ◌^◌, Bool, false, Option, none, some, List, [], ◌∷◌, ltb, ◌==◌, if◌then◌else◌, ◌>>=◌,
  ◌>>◌, ℤ, pos, negsuc,
}

-- `count_`, and the threads in `wait`: those about to make the test of its loop, those blocked on
-- the condition variable, and those that have returned.
pub record CountDownLatch : Type 0 where
  pub count : ℤ
  pub testing : ℕ
  pub blocked : ℕ
  pub passed : ℕ

abbrev pub make_latch : ℤ → CountDownLatch
make_latch n = record { count = n; testing = 0; blocked = 0; passed = 0 }

abbrev pub is_positive : ℤ → Bool
is_positive (pos n) = ltb 0 n
is_positive (negsuc n) = false

-- `count_--` on an `int`.
abbrev pub decrement : ℤ → Option ℤ
decrement (pos n) = some (if ltb 0 n then pos (n - 1) else negsuc 0)
decrement (negsuc n) = if ltb (n + 1) (2 ^ 31) then some (negsuc (n + 1)) else none

-- `count`.
unfoldable pub count_down : CountDownLatch → Option CountDownLatch
count_down l = do
  n ← decrement l.count
  some (
      if is_positive n
      then record l { count = n }
      else record l { count = n; testing = l.testing + l.blocked; blocked = 0 })

-- `wait`: a thread comes, and makes the test of the loop; a wait may also end on its own.
unfoldable pub arrive : CountDownLatch → CountDownLatch
arrive l = record l { testing = l.testing + 1 }

unfoldable pub test : CountDownLatch → Option CountDownLatch
test l =
    if l.testing == 0
    then none
    else some (
        if is_positive l.count
        then record l { testing = l.testing - 1; blocked = l.blocked + 1 }
        else record l { testing = l.testing - 1; passed = l.passed + 1 })

unfoldable pub wake_up : CountDownLatch → Option CountDownLatch
wake_up l =
    if l.blocked == 0
    then none
    else some (record l { testing = l.testing + 1; blocked = l.blocked - 1 })

pub data Action : Type 0 where
  counts arrives tests wakes : Action

unfoldable pub act : Action → CountDownLatch → Option CountDownLatch
act counts l = count_down l
act arrives l = some (arrive l)
act tests l = test l
act wakes l = wake_up l

unfoldable pub run : List Action → CountDownLatch → Option CountDownLatch
run [] l = some l
run (a ∷ rest) l = do l' ← act a l; run rest l'
