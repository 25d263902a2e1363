-- ===== src/TimerQueue/Tests.antt =====
-- The theorems on a queue of two timers.
use conex.Prelude.{
  ℕ, ◌+◌, ◌*◌, ◌≤◌, ◌<◌, ◌≡◌, refl, inl, inr, none, some, List, [], ◌∷◌, ◌++◌, arith, ◌==◌,
  if◌then◌else◌, Bool-cases, ◌>>=◌,
}
use conex.TimerQueue.{
  Timer, TimerQueue, Operation, make_timer, restart, millisecond, second, duration_from_now,
  make_timer_queue, store, insert_entry, erase_entry, add_timer, cancel_timer, part, get_expired,
  run_operations, run_timer, fire, fire_all, handle_read, adds, cancels,
}
use conex.TimerQueue.Expired.{AllUntil, AllLater, get_expired_lem}
use conex.TimerQueue.Duration.{duration_lem}
use conex.TimerQueue.Armed.{Action, IsArmed, act, run, adds_timer, cancels_timer, expires}
use conex.TimerQueue.Firing.{Gives, IsLive, OnlyAdds}
use conex.TimerQueue.Safe.{safe_lem}
use conex.TimerQueue.Cancel.{cancel_timer-add_timer}
use conex.TimerQueue.Fire.{Fired, Due, handle_read_lem, self_cancel}

abbrev once : Timer
once = make_timer 7 10 0

abbrev often : Timer
often = make_timer 8 12 5

abbrev queue : TimerQueue
queue = record make_timer_queue {
  timers = (20, 3) ∷ [];
  heap = store 1 (some once) (store 2 (some often) (λ p. none));
  next_pointer = 4;
}

abbrev due : List Due
due = ((10, 1), once) ∷ ((12, 2), often) ∷ []

abbrev no_code : ℕ → List Operation
no_code c = []

get_expired_lem_example :
    let (due, rest) = get_expired 12 ((10, 1) ∷ (12, 2) ∷ (13, 3) ∷ []) in
    (due ++ rest ≡ (10, 1) ∷ (12, 2) ∷ (13, 3) ∷ []) × AllUntil 12 due × AllLater 12 rest
get_expired_lem_example =
    get_expired_lem 12 ((10, 1) ∷ (12, 2) ∷ (13, 3) ∷ [])
      ((refl, (refl, tt)), ((refl, tt), (tt, tt)))

-- At time 12 both timers have expired, and the one that waits at 20 has not.
abbrev full_queue : TimerQueue
full_queue = record queue { timers = (10, 1) ∷ (12, 2) ∷ (20, 3) ∷ [] }

handle_read_lem_example : Fired due ((20, 3) ∷ []) full_queue (handle_read no_code 12 full_queue)
unfolding get_expired part
handle_read_lem_example =
    handle_read_lem no_code 12 due full_queue (λ c. refl)
      ((refl, (refl, tt)), ((refl, tt), (tt, tt))) refl
      (refl, refl, (omega arith, tt), (refl, refl, tt, tt))

abbrev cancels_itself : ℕ → List Operation
cancels_itself c = cancels 1 ∷ []

self_cancel_here : fire cancels_itself (10, 1) queue ≡ none
self_cancel_here = self_cancel cancels_itself (10, 1) once queue refl refl refl

duration_lem_example :
    let (seconds, rest) = duration_from_now 5 (2 * second + 12) in
    (rest < second)
    × (millisecond ≤ seconds * second + rest)
    × (5 + millisecond ≤ 2 * second + 12 → 5 + (seconds * second + rest) ≡ 2 * second + 12)
duration_lem_example = duration_lem 5 (2 * second + 12)

canceled_again :
    let (p, q') = add_timer 9 15 5 queue in
    (p ≡ 4)
    × (cancel_timer p q' ≡ some (record q' { timers = queue.timers; heap = store p none q'.heap }))
unfolding add_timer
canceled_again = cancel_timer-add_timer 9 15 5 queue (omega arith)

-- A timer that repeats, one in front of it, whose callback adds a third one, and an expiry.
abbrev busy : List Action
busy =
    adds_timer 8 12 5
    ∷ adds_timer 7 10 0
    ∷ expires (λ c. if c == 7 then adds 9 11 0 ∷ [] else []) 12
    ∷ cancels_timer 1
    ∷ []

adds_third : (c : ℕ) → OnlyAdds (if c == 7 then adds 9 11 0 ∷ [] else [])
adds_third c = elim (Bool-cases (c == 7)) [ inl e ↦ rw e tt | inr e ↦ rw e tt ]

safe_lem_example : Gives (λ q. IsLive q × IsArmed q) (run busy make_timer_queue)
unfolding run act handle_read get_expired part fire_all fire run_timer run_operations add_timer
    cancel_timer insert_entry erase_entry
safe_lem_example = safe_lem busy (tt, (tt, (adds_third, ((restart (make_timer 8 12 5), refl), tt))))

-- The set is then that of the third timer, which the descriptor was set to.
third_left : (do q ← run busy make_timer_queue; some q.timers) ≡ some ((11, 3) ∷ [])
unfolding run act handle_read get_expired part fire_all fire run_timer run_operations add_timer
    cancel_timer insert_entry erase_entry
third_left = refl
