-- ===== src/CountDownLatch/Tests.antt =====
-- The latch of CountDownLatch.h on concrete runs.
use mathlib.Core.Option
use conex.Prelude.{◌≤◌, ◌<◌, ◌≡◌, refl, some, List, [], ◌∷◌, pos}
use conex.CountDownLatch.{
  Action, make_latch, count_down, arrive, test, wake_up, act, run, counts, arrives, tests, wakes,
}
use conex.CountDownLatch.Passing.{counts_in, OnSome, latch_lem}

-- A thread waits, wakes for nothing, and waits again; the count lets it pass.
abbrev one_waits : List Action
one_waits = arrives ∷ tests ∷ wakes ∷ tests ∷ counts ∷ tests ∷ []

one_passes : Option.map (λ l. l.passed) (run one_waits (make_latch (pos 1))) ≡ some 1
unfolding run act count_down arrive test wake_up
one_passes = refl

latch_here :
    OnSome
      (λ l. (counts_in one_waits < 1 → l.passed ≡ 0) × (1 ≤ counts_in one_waits → l.blocked ≡ 0))
      (run one_waits (make_latch (pos 1)))
latch_here = latch_lem 1 one_waits
