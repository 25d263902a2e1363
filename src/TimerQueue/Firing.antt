-- ===== src/TimerQueue/Firing.antt =====
-- The loop of `handleRead`, when callbacks only add timers.
use conex.Prelude.{
  ℕ, suc, ◌≡◌, refl, sym, inl, inr, not, ◌&&◌, Option, none, some, List, [], ◌∷◌, ◌++◌, arith,
  if◌then◌else◌, ==_refl, Bool-cases,
}
use conex.TimerQueue.{
  Timer, TimerQueue, Operation, make_timer, restart, Entry, store, insert_entry, add_timer,
  run_operations, run_timer, fire, fire_all, adds, cancels,
}
use conex.TimerQueue.Live.{
  LeadsToTimer, NotIn, AreTimers, Disjoint, NotIn-insert, AreTimers-store, AreTimers-next,
  AreTimers-insert,
}

-- A result that has a property.
pub record Gives (P : TimerQueue → Type 0) (r : Option TimerQueue) : Type 0 where
  pub result : TimerQueue
  pub returns : r ≡ some result
  pub has : P result

-- The entries of the set, and those that are due, lead to timers of their own.
abbrev pub IsLive : TimerQueue → Type 0
IsLive q = AreTimers q.heap q.next_pointer q.timers

pub record IsFiring (due : List Entry) (q : TimerQueue) : Type 0 where
  pub due_live : AreTimers q.heap q.next_pointer due
  pub live : IsLive q
  pub apart : Disjoint due q.timers

-- Operations that only add timers.
abbrev pub OnlyAdds : List Operation → Type 0
OnlyAdds [] = Unit {0}
OnlyAdds (adds callback when_at interval ∷ ops) = OnlyAdds ops
OnlyAdds (cancels p ∷ ops) = ⊥

Disjoint-insert :
    (e : Entry) (es fs : List Entry)
    → NotIn e.1 es
    → Disjoint es fs
    → Disjoint es (insert_entry e fs)
Disjoint-insert e [] fs a h = tt
Disjoint-insert e (f ∷ es) fs a h =
    (NotIn-insert f.1 e fs (λ q. a.0 (sym q)) h.0, Disjoint-insert e es fs a.1 h.1)

pub add_timer-IsFiring :
    (callback when_at interval : ℕ) (due : List Entry) (q : TimerQueue)
    → IsFiring due q
    → IsFiring due (add_timer callback when_at interval q).1
unfolding add_timer
add_timer-IsFiring callback when_at interval due q h =
    let p = q.next_pointer in
    let t = make_timer callback when_at interval in
    let d = AreTimers-next q.heap p due h.due_live in
    let l = AreTimers-next q.heap p q.timers h.live in
    let heap' = store p (some t) q.heap in
    let own : LeadsToTimer heap' (suc p) (when_at, p) = record {
      timer = t;
      there = rw (==_refl p) refl;
      not_canceled = refl;
      same_time = refl;
      given_out = omega arith;
    } in
    record {
      due_live = AreTimers-store p (some t) q.heap (suc p) due d.1 d.0;
      live =
          AreTimers-insert heap' (suc p) (when_at, p) q.timers own l.1
            (AreTimers-store p (some t) q.heap (suc p) q.timers l.1 l.0);
      apart = Disjoint-insert (when_at, p) due q.timers d.1 h.apart;
    }

run_operations-IsFiring :
    (ops : List Operation) (due : List Entry) (q : TimerQueue)
    → OnlyAdds ops
    → IsFiring due q
    → Gives (IsFiring due) (run_operations ops q)
unfolding run_operations
run_operations-IsFiring [] due q only h = record { result = q; returns = refl; has = h }
run_operations-IsFiring (adds callback when_at interval ∷ ops) due q only h =
    run_operations-IsFiring ops due (add_timer callback when_at interval q).1 only
      (add_timer-IsFiring callback when_at interval due q h)
run_operations-IsFiring (cancels p ∷ ops) due q only h = elim only [ ]

-- The end of a round of the loop, once the callback has run.
settled : Entry → Timer → TimerQueue → TimerQueue
settled e t q =
    if not t.canceled && t.repeat
    then record q {
      heap = store e.1 (some (restart t)) q.heap;
      timers = insert_entry ((restart t).when_at, e.1) q.timers;
    }
    else record q { heap = store e.1 none q.heap }

settled-IsFiring :
    (e : Entry) (due : List Entry) (q : TimerQueue) (h : IsFiring (e ∷ due) q)
    → IsFiring due (settled e h.due_live.0.timer q)
unfolding settled
settled-IsFiring e due q h =
    let l = h.due_live.0 in
    let t = l.timer in
    let heap' = store e.1 (some (restart t)) q.heap in
    elim (Bool-cases (not t.canceled && t.repeat)) [
      | inl b ↦ rw b (
          let own : LeadsToTimer heap' q.next_pointer ((restart t).when_at, e.1) = record {
            timer = restart t;
            there = rw (==_refl e.1) refl;
            not_canceled = l.not_canceled;
            same_time = refl;
            given_out = l.given_out;
          } in
          record {
            due_live =
                AreTimers-store e.1 (some (restart t)) q.heap q.next_pointer due h.due_live.1
                  h.due_live.2;
            live =
                AreTimers-insert heap' q.next_pointer ((restart t).when_at, e.1) q.timers own
                  h.apart.0
                  (AreTimers-store e.1 (some (restart t)) q.heap q.next_pointer q.timers h.apart.0
                    h.live);
            apart = Disjoint-insert ((restart t).when_at, e.1) due q.timers h.due_live.1 h.apart.1;
          })
      | inr b ↦ rw b (record {
        due_live = AreTimers-store e.1 none q.heap q.next_pointer due h.due_live.1 h.due_live.2;
        live = AreTimers-store e.1 none q.heap q.next_pointer q.timers h.apart.0 h.live;
        apart = h.apart.1;
      })
    ]

fire-IsFiring :
    (code : ℕ → List Operation) (e : Entry) (due : List Entry) (q : TimerQueue)
    → ((c : ℕ) → OnlyAdds (code c))
    → IsFiring (e ∷ due) q
    → Gives (IsFiring due) (fire code e q)
unfolding fire run_timer settled
fire-IsFiring code e due q only h =
    let l = h.due_live.0 in
    let c = l.timer.callback in
    let q' = record q { ran = q.ran ++ c ∷ [] } in
    let h' : IsFiring (e ∷ due) q' = record {
      due_live = h.due_live;
      live = h.live;
      apart = h.apart;
    } in
    let r = run_operations-IsFiring (code c) (e ∷ due) q' (only c) h' in
    let l' = r.has.due_live.0 in
    record {
      result = settled e l'.timer r.result;
      returns = rw (l.there, l.not_canceled, r.returns, l'.there) refl;
      has = settled-IsFiring e due r.result r.has;
    }

pub fire_all-IsFiring :
    (code : ℕ → List Operation) (due : List Entry) (q : TimerQueue)
    → ((c : ℕ) → OnlyAdds (code c))
    → IsFiring due q
    → Gives IsLive (fire_all code due q)
unfolding fire_all
fire_all-IsFiring code [] q only h = record { result = q; returns = refl; has = h.live }
fire_all-IsFiring code (e ∷ due) q only h =
    let r = fire-IsFiring code e due q only h in
    rw r.returns (fire_all-IsFiring code due r.result only r.has)
