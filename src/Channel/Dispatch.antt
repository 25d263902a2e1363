-- ===== src/Channel/Dispatch.antt =====
-- Which callbacks an event leads to, and in which order; what the five changes do to the interest.
use conex.Prelude.{
  ℕ, ◌≡◌, refl, sym, Bool, true, false, not, ◌&&◌, ◌||◌, some, List, [], ◌∷◌, ◌++◌, append-nil,
  append_assoc, arith, if◌then◌else◌,
}
use conex.Channel.{
  Mask, Channel, Change, Callbacks, is_writing, is_reading, change_events, handle_event_with_guard,
  handle_events, enable_reading, disable_reading, enable_writing, disable_writing, disable_all,
}

-- The callbacks as a record of calls, to tell which were made.
pub data Called : Type 0 where
  called_close called_error called_write : Called
  called_read : ℕ → Called

abbrev pub recording : Callbacks (List Called)
recording = record {
  read_callback = some (λ time log. log ++ called_read time ∷ []);
  write_callback = some (λ log. log ++ called_write ∷ []);
  close_callback = some (λ log. log ++ called_close ∷ []);
  error_callback = some (λ log. log ++ called_error ∷ []);
}

abbrev pub when {ℓ} : {A : Type ℓ} → Bool → A → List A
when b a = if b then a ∷ [] else []

-- The calls that a mask asks for.
abbrev pub calls : Mask → ℕ → List Called
calls m time =
    when (m.epollhup && not m.epollin) called_close
    ++ (when m.epollerr called_error
        ++ (when (m.epollin || (m.epollpri || m.epollrdhup)) (called_read time)
            ++ when m.epollout called_write))

append-when :
    (b : Bool) (x : Called) (log : List Called)
    → (if b then log ++ x ∷ [] else log) ≡ log ++ when b x
append-when true x log = refl
append-when false x log = sym (append-nil log)

handle_event_with_guard_lem :
    (m : Mask) (time : ℕ) (log : List Called)
    → handle_event_with_guard recording m time log ≡ log ++ calls m time
unfolding handle_event_with_guard
handle_event_with_guard_lem m time log =
    let b₁ = m.epollhup && not m.epollin in
    let b₃ = m.epollin || (m.epollpri || m.epollrdhup) in
    let l₁ = log ++ when b₁ called_close in
    let l₂ = l₁ ++ when m.epollerr called_error in
    let l₃ = l₂ ++ when b₃ (called_read time) in
    rw
      (
        append-when b₁ called_close log,
        append-when m.epollerr called_error l₁,
        append-when b₃ (called_read time) l₂,
        append-when m.epollout called_write l₃,
      )
      (simp append_assoc)

-- A channel whose object is there makes the calls that its events ask for, the close callback
-- first, then error, read and write, each at most once; one whose object is gone makes none.
pub handle_events_lem :
    (c : Channel) (time : ℕ) (log : List Called)
    → (handle_events recording c time log).1
      ≡ (if c.tied && not c.tie_alive then log else log ++ calls c.revents time)
unfolding handle_events
handle_events_lem c time log = ground (arith, handle_event_with_guard_lem c.revents time log)

-- Reading and writing are switched independently of one another, and `disableAll` ends both.
pub change_events_lem :
    (ch : Change) (c : Channel)
    → (is_reading (change_events ch c) ≡ elim ch [
      | enable_reading ↦ true
      | disable_reading ↦ false
      | disable_all ↦ false
      | _ ↦ is_reading c
    ])
      × (is_writing (change_events ch c) ≡ elim ch [
        | enable_writing ↦ true
        | disable_writing ↦ false
        | disable_all ↦ false
        | _ ↦ is_writing c
      ])
unfolding change_events
change_events_lem enable_reading c = ground arith
change_events_lem _ c = ground arith
