-- ===== src/TimerQueue/Duration.antt =====
-- What the timer descriptor is set to.
use conex.Prelude.{
  ℕ, ◌+◌, ◌-◌, ◌*◌, ◌≤◌, ◌<◌, ◌≡◌, inl, inr, arith, ltb, ltb→lt, ltb-false→le, Bool-cases,
}
use conex.TimerQueue.{millisecond, second, duration_from_now}

-- The time that `timerfd_settime` is given is well formed and never zero, which would disarm the
-- timer; it is a millisecond at least, and otherwise exactly the time that is left.
pub duration_lem :
    (now when_at : ℕ)
    → let (seconds, rest) = duration_from_now now when_at in
      (rest < second)
      × (millisecond ≤ seconds * second + rest)
      × (now + millisecond ≤ when_at → now + (seconds * second + rest) ≡ when_at)
unfolding duration_from_now
duration_lem now when_at = elim (Bool-cases (ltb (when_at - now) millisecond)) [
  | inl t ↦ let h = ltb→lt _ _ t in rw t (omega arith, omega arith, λ k. absurd (omega arith))
  | inr t ↦ let h = ltb-false→le _ _ t in rw t (omega arith, omega arith, λ k. omega arith)
]
