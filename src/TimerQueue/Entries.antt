-- ===== src/TimerQueue/Entries.antt =====
-- Which entries are in the set.
use conex.Prelude.{◌≡◌, sym, ap₂, ◌∙◌, ◌↔◌, ◌⊎◌, inl, inr, false, List, [], ◌∷◌, arith, Bool-cases}
use conex.TimerQueue.{Entry, entry_ltb, insert_entry}

abbrev pub IsIn : Entry → List Entry → Type 0
IsIn a [] = ⊥
IsIn a (e ∷ es) = (a ≡ e) ⊎ IsIn a es

same_entry : (e f : Entry) → entry_ltb e f ≡ false → entry_ltb f e ≡ false → f ≡ e
same_entry e f h k =
    let times : f.0 ≡ e.0 = ground arith in
    let pointers : f.1 ≡ e.1 = ground arith in ap₂ (λ t p. (t, p)) times pointers

-- `timers_.insert` adds the entry and loses none.
pub insert_entry-IsIn :
    (a e : Entry) (es : List Entry) → IsIn a (insert_entry e es) ↔ ((a ≡ e) ⊎ IsIn a es)
unfolding insert_entry
insert_entry-IsIn a e [] = (λ h. h, λ h. h)
insert_entry-IsIn a e (f ∷ fs) =
    let (to, from) = insert_entry-IsIn a e fs in
    elim (Bool-cases (entry_ltb e f)) [
      | inl t ↦ rw t (λ h. h, λ h. h)
      | inr t ↦ elim (Bool-cases (entry_ltb f e)) [
        | inl u ↦
            rw (t, u)
              (
                λ h. elim h [
                  | inl p ↦ inr (inl p)
                  | inr k ↦ elim (to k) [ inl p ↦ inl p | inr m ↦ inr (inr m) ]
                ],
                λ h. elim h [
                  | inl p ↦ inr (from (inl p))
                  | inr k ↦ elim k [ inl p ↦ inl p | inr m ↦ inr (from (inr m)) ]
                ],
              )
        | inr u ↦
            rw (t, u)
              (λ h. inr h, λ h. elim h [ inl p ↦ inl (p ∙ sym (same_entry e f t u)) | inr k ↦ k ])
      ]
    ]
