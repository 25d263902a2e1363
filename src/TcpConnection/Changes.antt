-- ===== src/TcpConnection/Changes.antt =====
-- The changes of its channel's events that a connection makes.
use conex.Prelude.{
  ℕ, ◌-◌, ◌≡◌, refl, ap, ◌∙◌, ◌⊎◌, inl, inr, Bool, true, false, not, ◌&&◌, Option, none, some, List,
  [], ◌∷◌, ◌++◌, arith, ltb, ◌==◌, if◌then◌else◌, Bool-cases, ◌>>=◌, length, drop, Bytes,
}
use conex.Channel.{Change, is_writing, change_events}
use conex.Buffer.{Transfer, readable_bytes}
use conex.TcpConnection.{
  Effect, Connection, is_connected, Step, after_write, high_water, buffer_rest, write_complete,
  send_in_loop, send, shutdown_in_loop, shutdown, handle_close, force_close, force_close_in_loop,
  stop_read, start_read, handle_read, output_done, handle_write, update, queue_send,
  queue_write_complete, queue_shutdown, queue_force_close, queue_high_water, shutdown_write,
  message_callback, close_callback,
}
use conex.TcpConnection.Lifecycle.{
  Call, run_call, sends, sends_in_loop, shuts_down, shuts_down_in_loop, force_closes,
  force_closes_in_loop, stops_read, starts_read, reads, writes, closes,
}

-- The changes among the effects, in order.
unfoldable pub changes_of : List Effect → List Change
changes_of [] = []
changes_of (update ch ∷ effects) = ch ∷ changes_of effects
changes_of (e ∷ effects) = changes_of effects

-- A call makes one change of its channel's events, which it makes known to the poller, or none.
abbrev pub OneChange : Connection → Step → Type 0
OneChange c s =
    ((changes_of s.1 ≡ []) × (s.0.channel ≡ c.channel))
    ⊎ ((ch : Change) × (changes_of s.1 ≡ ch ∷ []) × (s.0.channel ≡ change_events ch c.channel))

abbrev pub OnResult : (Step → Type 0) → Option Step → Type 0
OnResult P none = Unit {0}
OnResult P (some s) = P s

changes_of-append : (es fs : List Effect) → changes_of (es ++ fs) ≡ changes_of es ++ changes_of fs
unfolding changes_of
changes_of-append [] fs = refl
changes_of-append (update ch ∷ es) fs = ap (λ cs. ch ∷ cs) (changes_of-append es fs)
changes_of-append (shutdown_write ∷ es) fs = changes_of-append es fs
changes_of-append (queue_send b ∷ es) fs = changes_of-append es fs
changes_of-append (queue_write_complete ∷ es) fs = changes_of-append es fs
changes_of-append (queue_shutdown ∷ es) fs = changes_of-append es fs
changes_of-append (queue_force_close ∷ es) fs = changes_of-append es fs
changes_of-append (queue_high_water n ∷ es) fs = changes_of-append es fs
changes_of-append (message_callback n ∷ es) fs = changes_of-append es fs
changes_of-append (close_callback ∷ es) fs = changes_of-append es fs

buffer_rest-changes : (rest : Bytes) (c : Connection) → OnResult (OneChange c) (buffer_rest rest c)
unfolding buffer_rest high_water changes_of
buffer_rest-changes rest c = ground arith

more-changes :
    (c : Connection) (complete : List Effect) (r : Option Step)
    → changes_of complete ≡ []
    → OnResult (OneChange c) r
    → OnResult (OneChange c) (r >>= λ s. some (s.0, complete ++ s.1))
more-changes c complete none q h = tt
more-changes c complete (some s) q h =
    let e = changes_of-append complete s.1 ∙ ap (λ cs. cs ++ changes_of s.1) q in rw e h

rest-changes :
    (go_on : Bool) (rest : Bytes) (complete : List Effect) (c : Connection)
    → changes_of complete ≡ []
    → OnResult (OneChange c) (
        if go_on
        then (do (c', effects) ← buffer_rest rest c; some (c', complete ++ effects))
        else some (c, complete))
rest-changes true rest complete c q =
    more-changes c complete (buffer_rest rest c) q (buffer_rest-changes rest c)
rest-changes false rest complete c q = inl (q, refl)

write_complete-changes : (done : Bool) (c : Connection) → changes_of (write_complete done c) ≡ []
unfolding changes_of
write_complete-changes done c = ground arith

send_in_loop-changes :
    (write : Bytes → Transfer ℕ) (bytes : Bytes) (c : Connection)
    → OnResult (OneChange c) (send_in_loop write bytes c)
unfolding send_in_loop changes_of
send_in_loop-changes write bytes c =
    let w = after_write (write bytes) (length bytes) in
    let one =
      rest-changes (not w.0 && ltb 0 w.1) (drop (length bytes - w.1) bytes) (write_complete w.2 c) c
        (write_complete-changes w.2 c) in
    elim (Bool-cases (is_connected c)) [
      | inr n ↦ rw n (inl (refl, refl))
      | inl k ↦
          elim (Bool-cases (not (is_writing c.channel) && readable_bytes c.output_buffer == 0)) [
            | inr n ↦ rw (k, n) (inl (refl, refl))
            | inl free ↦ rw (k, free) one
          ]
    ]

handle_write-changes :
    (kernel : List ℕ → Transfer ℕ) (c : Connection) → OnResult (OneChange c) (handle_write kernel c)
unfolding handle_write output_done shutdown_in_loop changes_of
handle_write-changes kernel c = ground arith

handle_read-changes :
    (answer : Transfer (List ℕ)) (time : ℕ) (c : Connection)
    → OnResult (OneChange c) (handle_read answer time c)
unfolding handle_read handle_close changes_of
handle_read-changes answer time c = ground arith

pub run_call-changes : (call : Call) (c : Connection) → OnResult (OneChange c) (run_call call c)
unfolding run_call send shutdown shutdown_in_loop force_close force_close_in_loop handle_close
    stop_read start_read changes_of
run_call-changes (sends in_loop write bytes) c =
    let s = send_in_loop-changes write bytes c in ground arith
run_call-changes (sends_in_loop write bytes) c = send_in_loop-changes write bytes c
run_call-changes (reads answer time) c = handle_read-changes answer time c
run_call-changes (writes kernel) c = handle_write-changes kernel c
run_call-changes (shuts_down in_loop) c = ground arith
run_call-changes shuts_down_in_loop c = ground arith
run_call-changes force_closes c = ground arith
run_call-changes force_closes_in_loop c = ground arith
run_call-changes stops_read c = ground arith
run_call-changes starts_read c = ground arith
run_call-changes closes c = ground arith
