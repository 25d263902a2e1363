-- ===== src/TimerQueue/Safe.antt =====
-- The use of the queue that is safe.
use conex.Prelude.{ℕ, ◌+◌, ◌≡◌, refl, subst, none, some, List, [], ◌∷◌}
use conex.TimerQueue.{
  Timer, TimerQueue, make_timer_queue, store, erase_entry, add_timer, cancel_timer, part,
  get_expired, set_next, handle_read,
}
use conex.TimerQueue.Live.{AreTimers-store, AreTimers-erase, NotIn-erase_own, part-AreTimers}
use conex.TimerQueue.Firing.{Gives, IsLive, OnlyAdds, add_timer-IsFiring, fire_all-IsFiring}
use conex.TimerQueue.Armed.{
  Action, OnSome, IsArmed, act, run, armed_lem, adds_timer, cancels_timer, expires,
}

-- What an action relies on: a timer that is canceled has not been deleted, and callbacks only add
-- timers.
abbrev pub Allowed : Action → TimerQueue → Type 0
Allowed (adds_timer callback when_at interval) q = Unit {0}
Allowed (cancels_timer p) q = (t : Timer) × (q.heap p ≡ some t)
Allowed (expires code now) q = (c : ℕ) → OnlyAdds (code c)

abbrev pub AllAllowed : List Action → TimerQueue → Type 0
AllAllowed [] q = Unit {0}
AllAllowed (a ∷ rest) q = Allowed a q × OnSome (AllAllowed rest) (act a q)

act-IsLive : (a : Action) (q : TimerQueue) → IsLive q → Allowed a q → Gives IsLive (act a q)
unfolding act cancel_timer handle_read get_expired
act-IsLive (adds_timer callback when_at interval) q live allowed = record {
  result = (add_timer callback when_at interval q).1;
  returns = refl;
  has =
      (add_timer-IsFiring callback when_at interval [] q
        (record { due_live = tt; live = live; apart = tt })).live;
}
act-IsLive (cancels_timer p) q live (t, there) =
    let rest = erase_entry (t.when_at, p) q.timers in
    record {
      result = record q { timers = rest; heap = store p none q.heap };
      returns = rw there refl;
      has =
          AreTimers-store p none q.heap q.next_pointer rest
            (NotIn-erase_own q.heap q.next_pointer p t q.timers there live)
            (AreTimers-erase q.heap q.next_pointer (t.when_at, p) q.timers live);
    }
act-IsLive (expires code now) q live allowed =
    let p = part-AreTimers q.heap q.next_pointer (now + 1, 0) q.timers live in
    let q' = record q { timers = (part (now + 1, 0) q.timers).1 } in
    let r =
      fire_all-IsFiring code (part (now + 1, 0) q.timers).0 q' allowed
        (record { due_live = p.0; live = p.1; apart = p.2 }) in
    record { result = set_next r.result; returns = rw r.returns refl; has = r.has }

-- From a new queue, whatever timers are added and canceled, and whenever the timer descriptor is
-- read, as long as no timer is canceled that has been deleted and callbacks only add timers: nothing
-- undefined is done, and every entry leads to a timer of its own that is not canceled. The timers
-- are in order, and if there are any, the time that the descriptor was last set to is not later
-- than the first of them, so that none is missed.
pub safe_lem :
    (actions : List Action)
    → AllAllowed actions make_timer_queue
    → Gives (λ q. IsLive q × IsArmed q) (run actions make_timer_queue)
unfolding run
safe_lem actions allowed =
    let r = from actions make_timer_queue tt allowed in
    record {
      result = r.result;
      returns = r.returns;
      has = (r.has, subst (OnSome IsArmed) r.returns (armed_lem actions));
    }
  where
    from :
        (actions : List Action) (q : TimerQueue)
        → IsLive q
        → AllAllowed actions q
        → Gives IsLive (run actions q)
    from [] q h allowed = record { result = q; returns = refl; has = h }
    from (a ∷ rest) q h allowed =
        let r = act-IsLive a q h allowed.0 in
        rw r.returns (from rest r.result r.has (rw r.returns at allowed.1))
