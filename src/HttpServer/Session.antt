-- ===== src/HttpServer/Session.antt =====
-- HttpServer.cc on a connection of TcpConnection.cc: the loop reads the socket, the server's message
-- callback runs, and what it does is done to the connection at once, since it runs in the loop's
-- thread. The context is the one that the connection holds.
use conex.Prelude.{ℕ, true, Option, none, some, List, [], ◌∷◌, ◌++◌, ◌>>=◌, Bytes}
use conex.Buffer.{Transfer}
use conex.HttpContext.{HttpContext}
use conex.HttpServer.{
  Action, Reply, HttpCallback, on_message, send, shutdown, fault, hangs, replied,
}
use conex.TcpConnection.{
  send as send_on, shutdown as shutdown_on, Effect, Connection, Step, handle_read, message_callback,
}

pub record Session : Type 0 where
  pub conn : Connection
  pub context : HttpContext

-- The calls of `onMessage` and `onRequest` on the connection, in order.
unfoldable pub perform : (Bytes → Transfer ℕ) → List Action → Connection → Option Step
perform write [] c = some (c, [])
perform write (send text ∷ rest) c = do
  (c', effects) ← send_on true write text c
  (c'', more) ← perform write rest c'
  some (c'', effects ++ more)
perform write (shutdown ∷ rest) c = do
  (c', more) ← perform write rest (shutdown_on true c).0
  some (c', (shutdown_on true c).1 ++ more)

-- `onMessage` gets the connection's own input buffer.
unfoldable pub reply_on : (Bytes → Transfer ℕ) → Reply → Connection → Option (Session × List Effect)
reply_on write fault c = none
reply_on write hangs c = none
reply_on write (replied r) c = do
  (c', effects) ← perform write r.actions (record c { input_buffer = r.buf })
  some (record { conn = c'; context = r.context }, effects)

-- The callbacks that `handleRead` runs; what else it does stays as it is.
unfoldable pub run_callback :
    HttpCallback → ℕ → (Bytes → Transfer ℕ) → HttpContext → Step → Option (Session × List Effect)
run_callback callback fuel write context (c, (message_callback time ∷ rest)) =
    reply_on write (on_message callback fuel c.input_buffer time context) c
run_callback callback fuel write context (c, effects) =
    some (record { conn = c; context = context }, effects)

-- A read event.
unfoldable pub receive :
    HttpCallback
    → ℕ
    → (Bytes → Transfer ℕ)
    → Transfer (List ℕ)
    → ℕ
    → Session
    → Option (Session × List Effect)
receive callback fuel write answer time s = do
  step ← handle_read answer time s.conn
  run_callback callback fuel write s.context step
