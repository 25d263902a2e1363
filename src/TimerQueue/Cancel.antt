-- ===== src/TimerQueue/Cancel.antt =====
-- A timer that is added and then canceled.
use conex.Prelude.{
  ℕ, ◌<◌, ◌≡◌, refl, ap, ◌∙◌, inl, inr, none, some, List, [], ◌∷◌, arith, ==_refl, Bool-cases,
}
use conex.TimerQueue.{
  Timer, TimerQueue, make_timer, Entry, entry_ltb, store, insert_entry, erase_entry, add_timer,
  cancel_timer,
}

-- The pointers of a set are below one that is not given out yet.
abbrev pub AllBelow : ℕ → List Entry → Type 0
AllBelow n [] = Unit {0}
AllBelow n (e ∷ es) = (e.1 < n) × AllBelow n es

erase_entry-insert_entry :
    (time p : ℕ) (es : List Entry)
    → AllBelow p es
    → erase_entry (time, p) (insert_entry (time, p) es) ≡ es
unfolding erase_entry insert_entry
erase_entry-insert_entry time p [] h = ground arith
erase_entry-insert_entry time p (f ∷ fs) h =
    let rest = erase_entry-insert_entry time p fs h.1 in
    elim (Bool-cases (entry_ltb (time, p) f)) [
      | inl t ↦ rw t (ground arith)
      | inr t ↦ elim (Bool-cases (entry_ltb f (time, p))) [
        | inl u ↦ rw (t, u) (rw (t, u) (ap (λ es. f ∷ es) rest))
        | inr u ↦ ground arith
      ]
    ]

pub cancel_timer-some :
    (p : ℕ) (t : Timer) (q : TimerQueue)
    → q.heap p ≡ some t
    → cancel_timer p q
      ≡ some (record q { timers = erase_entry (t.when_at, p) q.timers; heap = store p none q.heap })
unfolding cancel_timer
cancel_timer-some p t q h = rw h refl

-- `cancelTimer` on the pointer that `addTimer` has returned: the timer is deleted, and the set is
-- what it was before.
pub cancel_timer-add_timer :
    (callback time interval : ℕ) (q : TimerQueue)
    → AllBelow q.next_pointer q.timers
    → let (p, q') = add_timer callback time interval q in
      (p ≡ q.next_pointer)
      × (cancel_timer p q' ≡ some (record q' { timers = q.timers; heap = store p none q'.heap }))
unfolding add_timer
cancel_timer-add_timer callback time interval q h =
    let p = q.next_pointer in
    let q' = (add_timer callback time interval q).1 in
    let live : q'.heap p ≡ some (make_timer callback time interval) = rw (==_refl p) refl in
    (
      refl,
      cancel_timer-some p (make_timer callback time interval) q' live
          ∙ ap (λ ts. some (record q' { timers = ts; heap = store p none q'.heap }))
              (erase_entry-insert_entry time p q.timers h),
    )
