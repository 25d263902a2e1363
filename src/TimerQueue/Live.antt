-- ===== src/TimerQueue/Live.antt =====
-- The timers that the entries of the set lead to.
use conex.Prelude.{
  ℕ, suc, ◌<◌, ◌≡◌, sym, ap, ◌∙◌, subst, ◌≢◌, inl, inr, false, ◌||◌, Option, none, some, List, [],
  ◌∷◌, arith, Bool-cases,
}
use conex.TimerQueue.{Timer, Entry, entry_ltb, store, insert_entry, erase_entry, part}
use conex.TimerQueue.Fire.{store_apart}

-- A pointer that no entry has.
abbrev pub NotIn : ℕ → List Entry → Type 0
NotIn p [] = Unit {0}
NotIn p (e ∷ es) = (p ≢ e.1) × NotIn p es

-- A timer that is there, at the entry's time and not canceled. Its pointer was given out.
pub record LeadsToTimer (heap : ℕ → Option Timer) (next : ℕ) (e : Entry) : Type 0 where
  pub timer : Timer
  pub there : heap e.1 ≡ some timer
  pub not_canceled : timer.canceled ≡ false
  pub same_time : timer.when_at ≡ e.0
  pub given_out : e.1 < next

-- Every entry leads to a timer of its own.
abbrev pub AreTimers : (ℕ → Option Timer) → ℕ → List Entry → Type 0
AreTimers heap next [] = Unit {0}
AreTimers heap next (e ∷ es) = LeadsToTimer heap next e × NotIn e.1 es × AreTimers heap next es

-- Two lists of entries share no pointer.
abbrev pub Disjoint : List Entry → List Entry → Type 0
Disjoint [] fs = Unit {0}
Disjoint (e ∷ es) fs = NotIn e.1 fs × Disjoint es fs

pub NotIn-insert :
    (p : ℕ) (e : Entry) (es : List Entry) → p ≢ e.1 → NotIn p es → NotIn p (insert_entry e es)
unfolding insert_entry
NotIn-insert p e [] a h = (a, tt)
NotIn-insert p e (f ∷ fs) a h = elim (Bool-cases (entry_ltb e f)) [
  | inl t ↦ rw t (a, h)
  | inr t ↦ elim (Bool-cases (entry_ltb f e)) [
    | inl u ↦ rw (t, u) (h.0, NotIn-insert p e fs a h.1)
    | inr u ↦ rw (t, u) h
  ]
]

NotIn-erase : (p : ℕ) (e : Entry) (es : List Entry) → NotIn p es → NotIn p (erase_entry e es)
unfolding erase_entry
NotIn-erase p e [] h = tt
NotIn-erase p e (f ∷ fs) h = elim (Bool-cases (entry_ltb e f || entry_ltb f e)) [
  | inl t ↦ rw t (h.0, NotIn-erase p e fs h.1)
  | inr t ↦ rw t h.1
]

-- A timer of another pointer.
pub AreTimers-store :
    (p : ℕ) (t : Option Timer) (heap : ℕ → Option Timer) (next : ℕ) (es : List Entry)
    → NotIn p es
    → AreTimers heap next es
    → AreTimers (store p t heap) next es
AreTimers-store p t heap next [] a h = tt
AreTimers-store p t heap next (e ∷ es) a h = (
  record {
    timer = h.0.timer;
    there = store_apart p t heap e.1 (λ q. a.0 (sym q)) ∙ h.0.there;
    not_canceled = h.0.not_canceled;
    same_time = h.0.same_time;
    given_out = h.0.given_out;
  },
  h.1,
  AreTimers-store p t heap next es a.1 h.2,
)

pub AreTimers-next :
    (heap : ℕ → Option Timer) (next : ℕ) (es : List Entry)
    → AreTimers heap next es
    → AreTimers heap (suc next) es × NotIn next es
AreTimers-next heap next [] h = (tt, tt)
AreTimers-next heap next (e ∷ es) h =
    let r = AreTimers-next heap next es h.2 in
    let old = h.0.given_out in
    (
      (
        record {
          timer = h.0.timer;
          there = h.0.there;
          not_canceled = h.0.not_canceled;
          same_time = h.0.same_time;
          given_out = omega arith;
        },
        h.1,
        r.0,
      ),
      ((λ q. absurd (omega (arith, q))), r.1),
    )

pub AreTimers-insert :
    (heap : ℕ → Option Timer) (next : ℕ) (e : Entry) (es : List Entry)
    → LeadsToTimer heap next e
    → NotIn e.1 es
    → AreTimers heap next es
    → AreTimers heap next (insert_entry e es)
unfolding insert_entry
AreTimers-insert heap next e [] l a h = (l, tt, tt)
AreTimers-insert heap next e (f ∷ fs) l a h = elim (Bool-cases (entry_ltb e f)) [
  | inl t ↦ rw t (l, a, h)
  | inr t ↦ elim (Bool-cases (entry_ltb f e)) [
    | inl u ↦
        rw (t, u)
          (
            h.0,
            NotIn-insert f.1 e fs (λ q. a.0 (sym q)) h.1,
            AreTimers-insert heap next e fs l a.1 h.2,
          )
    | inr u ↦ rw (t, u) h
  ]
]

pub AreTimers-erase :
    (heap : ℕ → Option Timer) (next : ℕ) (e : Entry) (es : List Entry)
    → AreTimers heap next es
    → AreTimers heap next (erase_entry e es)
unfolding erase_entry
AreTimers-erase heap next e [] h = tt
AreTimers-erase heap next e (f ∷ fs) h = elim (Bool-cases (entry_ltb e f || entry_ltb f e)) [
  | inl t ↦ rw t (h.0, NotIn-erase f.1 e fs h.1, AreTimers-erase heap next e fs h.2)
  | inr t ↦ rw t h.2
]

time_of : Option Timer → ℕ
time_of none = 0
time_of (some t) = t.when_at

-- The entry of a timer is found by the timer's time and pointer.
pub NotIn-erase_own :
    (heap : ℕ → Option Timer) (next p : ℕ) (t : Timer) (es : List Entry)
    → heap p ≡ some t
    → AreTimers heap next es
    → NotIn p (erase_entry (t.when_at, p) es)
unfolding erase_entry time_of
NotIn-erase_own heap next p t [] k h = tt
NotIn-erase_own heap next p t (f ∷ fs) k h =
    elim (Bool-cases (entry_ltb (t.when_at, p) f || entry_ltb f (t.when_at, p))) [
      | inl d ↦ rw d (
        (λ q.
            let same_time = h.0.same_time in
            let e : t.when_at ≡ h.0.timer.when_at = ap time_of (sym k ∙ ap heap q ∙ h.0.there) in
            ground arith),
        NotIn-erase_own heap next p t fs k h.2,
      )
      | inr d ↦ rw d (subst (λ i. NotIn i fs) (ground arith) h.1)
    ]

pub part-AreTimers :
    (heap : ℕ → Option Timer) (next : ℕ) (key : Entry) (es : List Entry)
    → AreTimers heap next es
    → AreTimers heap next (part key es).0
      × AreTimers heap next (part key es).1
      × Disjoint (part key es).0 (part key es).1
unfolding part
part-AreTimers heap next key [] h = (tt, tt, tt)
part-AreTimers heap next key (e ∷ es) h =
    let r = part-AreTimers heap next key es h.2 in
    let a = part-NotIn e.1 key es h.1 in
    elim (Bool-cases (entry_ltb e key)) [
      | inl t ↦ rw t ((h.0, a.0, r.0), r.1, (a.1, r.2))
      | inr t ↦ rw t (tt, h, tt)
    ]
  where
    part-NotIn :
        (p : ℕ) (key : Entry) (es : List Entry)
        → NotIn p es
        → NotIn p (part key es).0 × NotIn p (part key es).1
    part-NotIn p key [] h = (tt, tt)
    part-NotIn p key (e ∷ es) h =
        let r = part-NotIn p key es h.1 in
        elim (Bool-cases (entry_ltb e key)) [
          | inl t ↦ rw t ((h.0, r.0), r.1)
          | inr t ↦ rw t (tt, h)
        ]
