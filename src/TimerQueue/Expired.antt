-- ===== src/TimerQueue/Expired.antt =====
-- The set of timers in order, and which of them have expired.
use conex.Prelude.{
  ℕ, ◌+◌, ◌≤◌, ◌<◌, ◌≡◌, refl, ap, inl, inr, true, List, [], ◌∷◌, ◌++◌, arith, Bool-cases,
}
use conex.TimerQueue.{Entry, entry_ltb, insert_entry, part, get_expired}

-- Every entry of a list comes after one.
abbrev pub AllAfter : Entry → List Entry → Type 0
AllAfter e [] = Unit {0}
AllAfter e (f ∷ fs) = (entry_ltb e f ≡ true) × AllAfter e fs

abbrev pub IsSorted : List Entry → Type 0
IsSorted [] = Unit {0}
IsSorted (e ∷ es) = AllAfter e es × IsSorted es

abbrev pub AllUntil : ℕ → List Entry → Type 0
AllUntil now [] = Unit {0}
AllUntil now (e ∷ es) = (e.0 ≤ now) × AllUntil now es

abbrev pub AllLater : ℕ → List Entry → Type 0
AllLater now [] = Unit {0}
AllLater now (e ∷ es) = (now < e.0) × AllLater now es

entry_trans : (a b c : Entry) → entry_ltb a b ≡ true → entry_ltb b c ≡ true → entry_ltb a c ≡ true
entry_trans a b c h k = ground arith

AllAfter-trans :
    (a b : Entry) (es : List Entry) → entry_ltb a b ≡ true → AllAfter b es → AllAfter a es
AllAfter-trans a b [] h k = tt
AllAfter-trans a b (e ∷ es) h k = (entry_trans a b e h k.0, AllAfter-trans a b es h k.1)

AllAfter-insert :
    (a e : Entry) (es : List Entry)
    → entry_ltb a e ≡ true
    → AllAfter a es
    → AllAfter a (insert_entry e es)
unfolding insert_entry
AllAfter-insert a e [] h k = (h, tt)
AllAfter-insert a e (f ∷ fs) h k = ground (arith, AllAfter-insert a e fs h k.1)

-- `timers_.insert` keeps the set in order, without doubles.
pub insert_entry-IsSorted :
    (e : Entry) (es : List Entry) → IsSorted es → IsSorted (insert_entry e es)
unfolding insert_entry
insert_entry-IsSorted e [] h = (tt, tt)
insert_entry-IsSorted e (f ∷ fs) h = elim (Bool-cases (entry_ltb e f)) [
  | inl t ↦ rw t ((t, AllAfter-trans e f fs t h.0), h)
  | inr t ↦ elim (Bool-cases (entry_ltb f e)) [
    | inl u ↦ rw (t, u) (AllAfter-insert f e fs u h.0, insert_entry-IsSorted e fs h.1)
    | inr u ↦ rw (t, u) h
  ]
]

later_all : (now : ℕ) (e : Entry) (es : List Entry) → now < e.0 → AllAfter e es → AllLater now es
later_all now e [] h k = tt
later_all now e (f ∷ fs) h k = (ground arith, later_all now e fs h k.1)

-- `getExpired` parts the timers, in order, into those whose time is at most now and those whose
-- time is later: no timer is lost, none fires early and none is left behind.
pub get_expired_lem :
    (now : ℕ) (es : List Entry)
    → IsSorted es
    → let (due, rest) = get_expired now es in
      (due ++ rest ≡ es) × AllUntil now due × AllLater now rest
unfolding get_expired part
get_expired_lem now [] h = (refl, tt, tt)
get_expired_lem now (e ∷ es) h =
    let (same, until, later) = get_expired_lem now es h.1 in
    elim (Bool-cases (entry_ltb e (now + 1, 0))) [
      | inl t ↦ rw t (ap (λ x. e ∷ x) same, (ground arith, until), later)
      | inr t ↦
          let h0 : now < e.0 = ground arith in rw t (refl, tt, (h0, later_all now e es h0 h.0))
    ]

-- The timers that have not expired stay in order.
pub get_expired-IsSorted :
    (now : ℕ) (es : List Entry) → IsSorted es → IsSorted (get_expired now es).1
unfolding get_expired part
get_expired-IsSorted now [] h = tt
get_expired-IsSorted now (e ∷ es) h = elim (Bool-cases (entry_ltb e (now + 1, 0))) [
  | inl t ↦ rw t (get_expired-IsSorted now es h.1)
  | inr t ↦ rw t h
]
