-- ===== src/CountDownLatch/Passing.antt =====
-- When a thread passes the latch.
use conex.Prelude.{
  ℕ, suc, ◌+◌, ◌-◌, ◌≤◌, ◌<◌, ◌≡◌, subst, inl, inr, Option, none, some, List, [], ◌∷◌, arith, leb,
  if◌then◌else◌, Option-cases, ℤ, pos, negsuc,
}
use conex.CountDownLatch.{
  CountDownLatch, Action, make_latch, count_down, arrive, test, wake_up, act, run, counts, arrives,
  tests, wakes,
}

-- What is left of n after k counts.
abbrev pub left_after : ℕ → ℕ → ℤ
left_after n k = if leb k n then pos (n - k) else negsuc (k - n - 1)

abbrev pub counts_in : List Action → ℕ
counts_in [] = 0
counts_in (counts ∷ rest) = suc (counts_in rest)
counts_in (a ∷ rest) = counts_in rest

-- The state after k of n counts: nobody has passed as long as some are left, and nobody is blocked
-- once none are.
pub record IsLatch (n k : ℕ) (l : CountDownLatch) : Type 0 where
  pub count_is : l.count ≡ left_after n k
  pub none_early : k < n → l.passed ≡ 0
  pub none_blocked : n ≤ k → l.blocked ≡ 0

abbrev pub OnSome : (CountDownLatch → Type 0) → Option CountDownLatch → Type 0
OnSome P none = Unit {0}
OnSome P (some l) = P l

act-IsLatch :
    (n k : ℕ) (a : Action) (l : CountDownLatch)
    → IsLatch n k l
    → OnSome (IsLatch n (counts_in (a ∷ []) + k)) (act a l)
unfolding act count_down arrive test wake_up
act-IsLatch n k counts l v = ground arith
act-IsLatch n k arrives l v = ground arith
act-IsLatch n k tests l v = ground arith
act-IsLatch n k wakes l v = ground arith

counts_in-cons :
    (k : ℕ) (a : Action) (rest : List Action)
    → counts_in rest + (counts_in (a ∷ []) + k) ≡ counts_in (a ∷ rest) + k
counts_in-cons k counts rest = omega arith
counts_in-cons k arrives rest = omega arith
counts_in-cons k tests rest = omega arith
counts_in-cons k wakes rest = omega arith

run-IsLatch :
    (n k : ℕ) (actions : List Action) (l : CountDownLatch)
    → IsLatch n k l
    → OnSome (IsLatch n (counts_in actions + k)) (run actions l)
unfolding run
run-IsLatch n k [] l v =
    let e : k ≡ counts_in [] + k = omega arith in subst (λ j. IsLatch n j l) e v
run-IsLatch n k (a ∷ rest) l v = elim (Option-cases (act a l)) [
  | inl e ↦ rw e tt
  | inr (l', e) ↦ rw e (
      subst (λ j. OnSome (IsLatch n j) (run rest l')) (counts_in-cons k a rest)
        (run-IsLatch n (counts_in (a ∷ []) + k) rest l'
          (subst (OnSome (IsLatch n (counts_in (a ∷ []) + k))) e (act-IsLatch n k a l v))))
]

-- A latch for n counts, whatever its threads do in whatever order, a wait that ends on its own
-- included: before n counts nobody has passed it, and after them nobody is blocked in it.
pub latch_lem :
    (n : ℕ) (actions : List Action)
    → OnSome
        (λ l. (counts_in actions < n → l.passed ≡ 0) × (n ≤ counts_in actions → l.blocked ≡ 0))
        (run actions (make_latch (pos n)))
latch_lem n actions =
    split (run actions (make_latch (pos n)))
      (run-IsLatch n 0 actions (make_latch (pos n)) (ground arith))
  where
    split :
        (r : Option CountDownLatch)
        → OnSome (IsLatch n (counts_in actions + 0)) r
        → OnSome
            (λ l. (counts_in actions < n → l.passed ≡ 0) × (n ≤ counts_in actions → l.blocked ≡ 0))
            r
    split none v = tt
    split (some l) v = (λ h. v.none_early (omega arith), λ h. v.none_blocked (omega arith))
