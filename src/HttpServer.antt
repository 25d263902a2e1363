-- ===== src/HttpServer.antt =====
-- HttpServer.cc: what the server does with the bytes of a connection. A call of `send` or
-- `shutdown` on the connection is an action in the result; the user's callback is an argument.
pub mod Serve
pub mod Session
pub mod Setup
pub mod Exchange
mod Tests
use conex.Prelude.{
  ℕ, Bool, true, false, not, ◌&&◌, ◌||◌, Option, none, some, List, [], ◌∷◌, ◌++◌, if◌then◌else◌,
  ◌>>=◌, ◌>>◌, Bytes, codes, bytes_eq,
}
use conex.Buffer.{Buffer, initial_size, make, readable_bytes, peek}
use conex.HttpRequest.{Version, HttpRequest, get_header, http10}
use conex.HttpContext.{
  HttpContext, fresh, reset, get_all, parse_request, crashed, running, returned,
}
use conex.HttpResponse.{
  HttpResponse, make_response, set_status_code, set_status_message, set_close_connection,
  append_to_buffer, code_404,
}
use conex.Memory.{read_at}

pub data Action : Type 0 where
  send : Bytes → Action
  shutdown : Action

abbrev pub HttpCallback : Type 0
HttpCallback = HttpRequest → HttpResponse → HttpResponse

unfoldable pub default_http_callback : HttpCallback
default_http_callback req resp =
    set_close_connection true
      (set_status_message (codes "Not Found") (set_status_code code_404 resp))

abbrev pub is_http10 : Version → Bool
is_http10 http10 = true
is_http10 _ = false

unfoldable pub must_close : HttpRequest → Bool
must_close request =
    let connection = get_header (codes "Connection") request in
    bytes_eq connection (codes "close")
    || is_http10 request.version && not (bytes_eq connection (codes "Keep-Alive"))

-- `send(Buffer&)` sends the readable bytes of the new buffer.
unfoldable pub on_request : HttpCallback → HttpRequest → Option (List Action)
on_request callback request = do
  let close = must_close request
  let response = callback request (make_response close)
  buf ← make initial_size
  output ← append_to_buffer response buf
  text ← read_at output.buffer (peek output) (readable_bytes output)
  some (send text ∷ (if close then shutdown ∷ [] else []))

abbrev pub bad_request : Bytes
bad_request = codes "HTTP/1.1 400 Bad Request\r\n\r\n"

-- `onConnection` gives a new connection a fresh context.
abbrev pub on_connection : Bool → HttpContext → HttpContext
on_connection connected context = if connected then fresh else context

-- What is left of the connection's buffer and context, and the actions in order.
pub record Served : Type 0 where
  pub buf : Buffer
  pub context : HttpContext
  pub actions : List Action

-- After `parseRequest` has returned.
unfoldable pub after_parse : HttpCallback → Bool → Buffer → HttpContext → Option Served
after_parse callback ok buf context =
    let refused : List Action = if ok then [] else send bad_request ∷ shutdown ∷ [] in
    if get_all context
    then (do
      actions ← on_request callback context.request
      some (record { buf = buf; context = reset context; actions = refused ++ actions }))
    else some (record { buf = buf; context = context; actions = refused })

-- The handler does not return if the parser does not.
pub data Reply : Type 0 where
  fault : Reply
  hangs : Reply
  replied : Served → Reply

abbrev pub of_option : Option Served → Reply
of_option none = fault
of_option (some s) = replied s

unfoldable pub on_message : HttpCallback → ℕ → Buffer → ℕ → HttpContext → Reply
on_message callback fuel buf time context = elim (parse_request fuel buf time context) [
  | crashed ↦ fault
  | running l ↦ hangs
  | returned ok left context' ↦ of_option (after_parse callback ok left context')
]
