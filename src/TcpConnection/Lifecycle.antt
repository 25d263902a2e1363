-- ===== src/TcpConnection/Lifecycle.antt =====
-- The states of a connection over its life.
use conex.Prelude.{
  ℕ, ◌-◌, ◌≤◌, inl, inr, Bool, Option, none, some, List, [], ◌∷◌, ◌++◌, arith, Bool-cases,
  Option-cases, ◌>>=◌, length, drop, Bytes,
}
use conex.Buffer.{Transfer}
use conex.TcpConnection.{
  ConnectionState, Effect, Connection, is_connected, Step, after_write, buffer_rest, send_in_loop,
  send, shutdown_in_loop, shutdown, handle_close, force_close, force_close_in_loop, stop_read,
  start_read, handle_read, output_done, handle_write, connecting, connected, disconnecting,
  disconnected,
}

-- The calls that a connection gets once it is established, with the answers of the kernel. The
-- last one is the close event of the channel.
pub data Call : Type 0 where
  sends : Bool → (Bytes → Transfer ℕ) → Bytes → Call
  sends_in_loop : (Bytes → Transfer ℕ) → Bytes → Call
  shuts_down : Bool → Call
  shuts_down_in_loop force_closes force_closes_in_loop stops_read starts_read : Call
  reads : Transfer (List ℕ) → ℕ → Call
  writes : (List ℕ → Transfer ℕ) → Call
  closes : Call

unfoldable pub run_call : Call → Connection → Option Step
run_call (sends in_loop write bytes) c = send in_loop write bytes c
run_call (sends_in_loop write bytes) c = send_in_loop write bytes c
run_call (shuts_down in_loop) c = some (shutdown in_loop c)
run_call shuts_down_in_loop c = some (c, shutdown_in_loop c)
run_call force_closes c = some (force_close c)
run_call force_closes_in_loop c = some (force_close_in_loop c)
run_call stops_read c = some (stop_read c)
run_call starts_read c = some (start_read c)
run_call (reads answer time) c = handle_read answer time c
run_call (writes kernel) c = handle_write kernel c
run_call closes c = some (handle_close c)

unfoldable pub run_calls : List Call → Connection → Option Step
run_calls [] c = some (c, [])
run_calls (call ∷ calls) c = do
  (c', effects) ← run_call call c
  (c'', more) ← run_calls calls c'
  some (c'', effects ++ more)

-- How far a connection is in its life.
abbrev pub rank : ConnectionState → ℕ
rank connecting = 0
rank connected = 1
rank disconnecting = 2
rank disconnected = 3

abbrev pub Advances : Connection → Option Step → Type 0
Advances c none = Unit {0}
Advances c (some (c', effects)) = rank c.state ≤ rank c'.state

buffer_rest-Advances : (rest : Bytes) (c : Connection) → Advances c (buffer_rest rest c)
unfolding buffer_rest
buffer_rest-Advances rest c = ground arith

send_in_loop-Advances :
    (write : Bytes → Transfer ℕ) (bytes : Bytes) (c : Connection)
    → Advances c (send_in_loop write bytes c)
unfolding send_in_loop
send_in_loop-Advances write bytes c = elim (Bool-cases (is_connected c)) [
  | inl k ↦ ground (
    arith,
    buffer_rest-Advances (drop (length bytes - (after_write (write bytes) (length bytes)).1) bytes)
        c,
  )
  | inr k ↦ ground arith
]

handle_read-Advances :
    (answer : Transfer (List ℕ)) (time : ℕ) (c : Connection)
    → Advances c (handle_read answer time c)
unfolding handle_read handle_close
handle_read-Advances answer time c = ground arith

handle_write-Advances :
    (kernel : List ℕ → Transfer ℕ) (c : Connection) → Advances c (handle_write kernel c)
unfolding handle_write output_done
handle_write-Advances kernel c = ground arith

run_call-Advances : (call : Call) (c : Connection) → Advances c (run_call call c)
unfolding run_call send shutdown force_close force_close_in_loop handle_close stop_read start_read
run_call-Advances (sends in_loop write bytes) c =
    ground (arith, send_in_loop-Advances write bytes c)
run_call-Advances (sends_in_loop write bytes) c = send_in_loop-Advances write bytes c
run_call-Advances (reads answer time) c = handle_read-Advances answer time c
run_call-Advances (writes kernel) c = handle_write-Advances kernel c
run_call-Advances _ c = ground arith

later-Advances :
    (c c' : Connection) (effects : List Effect) (r : Option Step)
    → Advances c' r
    → rank c.state ≤ rank c'.state
    → Advances c (r >>= λ s. some (s.0, effects ++ s.1))
later-Advances c c' effects none h k = tt
later-Advances c c' effects (some s) h k = omega arith

-- Once established, a connection only goes forward: connected, disconnecting, disconnected. No
-- sequence of its calls, whatever the kernel answers, takes it back.
pub run_calls-Advances : (calls : List Call) (c : Connection) → Advances c (run_calls calls c)
unfolding run_calls
run_calls-Advances [] c = omega arith
run_calls-Advances (call ∷ calls) c = elim (Option-cases (run_call call c)) [
  | inl e ↦ rw e tt
  | inr ((c', effects), e) ↦ rw e (
      later-Advances c c' effects (run_calls calls c') (run_calls-Advances calls c')
        (rw e at (run_call-Advances call c)))
]
