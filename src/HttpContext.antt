-- ===== src/HttpContext.antt =====
-- HttpContext.h and HttpContext.cc: the parser of requests. `parseRequest` is a loop over the
-- bytes that the connection has buffered; `parse_step` is its body and `parse_loop` runs it on
-- fuel. A failed `assert`, here or in the buffer, is the outcome `crashed`.
pub mod Line
pub mod RequestLine
pub mod Steps
pub mod Complete
pub mod Stuck
mod Tests
use conex.Prelude.{
  ℕ, zero, suc, ◌+◌, ◌-◌, Bool, true, false, ◌&&◌, Option, none, some, ◌==◌, if◌then◌else◌, ◌>>=◌,
  ◌>>◌, length, take, drop, Bytes, codes, bytes_eq,
}
use conex.Memory.{read_at}
use conex.Buffer.{Buffer, readable_bytes, peek, retrieve_all, retrieve_until, find_byte, find_crlf}
use conex.HttpRequest.{
  HttpRequest, empty_request, set_method, set_version, set_path, set_query, set_receive_time,
  set_body, add_header, swap_request, http10, http11,
}

pub data ParseState : Type 0 where
  expect_request_line expect_headers expect_body got_all : ParseState

pub record HttpContext : Type 0 where
  pub request : HttpRequest
  pub state : ParseState

-- The constructor, and what `reset` leaves: the request is exchanged for an empty one.
abbrev pub fresh : HttpContext
fresh = record { request = empty_request; state = expect_request_line }

abbrev pub reset : HttpContext → HttpContext
reset c = record { request = (swap_request c.request empty_request).0; state = expect_request_line }

abbrev pub get_all : HttpContext → Bool
get_all c = elim c.state [ got_all ↦ true | _ ↦ false ]

-- The eight bytes of the version, up to the last one.
unfoldable pub parse_version : Bytes → HttpRequest → Bool × HttpRequest
parse_version text r =
    if length text == 8 && bytes_eq (take 7 text) (codes "HTTP/1.")
    then (if bytes_eq (drop 7 text) (codes "1")
        then (true, set_version http11 r)
        else if bytes_eq (drop 7 text) (codes "0")
        then (true, set_version http10 r)
        else (false, r))
    else (false, r)

-- The target, split at its first question mark; the query keeps the mark.
unfoldable pub parse_target : Bytes → HttpRequest → HttpRequest
parse_target target r = elim (find_byte b'?' target) [
  | none ↦ set_path target r
  | some q ↦ set_query (drop q target) (set_path (take q target) r)
]

-- What follows the method and its space.
unfoldable pub parse_rest : Bytes → HttpRequest → Bool × HttpRequest
parse_rest text r = elim (find_byte b' ' text) [
  | none ↦ (false, r)
  | some space ↦ parse_version (drop (suc space) text) (parse_target (take space text) r)
]

-- `line` is the range [st, end). The request is changed as far as the line was read.
unfoldable pub process_request_line : Bytes → HttpRequest → Option (Bool × HttpRequest)
process_request_line line r = elim (find_byte b' ' line) [
  | none ↦ some (false, r)
  | some space ↦ do
    (known, r') ← set_method (take space line) r
    some (if known then parse_rest (drop (suc space) line) r' else (false, r'))
]

-- The variables of the loop: the buffer and the context are changed in place.
pub record Loop : Type 0 where
  pub buf : Buffer
  pub context : HttpContext
  pub ok : Bool
  pub has_more : Bool

-- After `crlf` was found in state `kExpectRequestLine`.
unfoldable pub request_line_step : ℕ → ℕ → Loop → Option Loop
request_line_step time crlf l = do
  line ← read_at l.buf.buffer (peek l.buf) (crlf - peek l.buf)
  (ok, r) ← process_request_line line l.context.request
  if ok
      then (do
        buf ← retrieve_until (crlf + 2) l.buf
        some (record l {
          buf = buf;
          context = record { request = set_receive_time time r; state = expect_headers };
          ok = true;
        }))
      else some (record l { context = record { request = r; state = l.context.state }; ok = false })

-- After `crlf` was found in state `kExpectHeaders`: a line with no colon ends the headers.
unfoldable pub header_step : ℕ → Loop → Option Loop
header_step crlf l = do
  line ← read_at l.buf.buffer (peek l.buf) (crlf - peek l.buf)
  let context : HttpContext = elim (find_byte b':' line) [
    | none ↦ record { request = l.context.request; state = expect_body }
    | some colon ↦ record {
      request = add_header line colon l.context.request;
      state = l.context.state;
    }
  ]
  buf ← retrieve_until (crlf + 2) l.buf
  some (record l { buf = buf; context = context })

-- All that is left is the body.
unfoldable pub body_step : Loop → Option Loop
body_step l = do
  body ← read_at l.buf.buffer (peek l.buf) (readable_bytes l.buf)
  some (record l {
    buf = retrieve_all l.buf;
    context = record { request = set_body body l.context.request; state = got_all };
    has_more = false;
  })

-- One round of `while(hasMore)`.
unfoldable pub step_in : ParseState → ℕ → Loop → Option Loop
step_in expect_request_line time l = do
  found ← find_crlf l.buf
  elim found [ none ↦ some l | some crlf ↦ request_line_step time crlf l ]
step_in expect_headers time l = do
  found ← find_crlf l.buf
  elim found [ none ↦ some (record l { has_more = false }) | some crlf ↦ header_step crlf l ]
step_in expect_body time l = body_step l
step_in got_all time l = some l

abbrev pub parse_step : ℕ → Loop → Option Loop
parse_step time l = step_in l.context.state time l

pub data Outcome : Type 0 where
  crashed : Outcome
  running : Loop → Outcome
  returned : Bool → Buffer → HttpContext → Outcome

-- The loop on fuel: `running` says that it has not come to its end in that many rounds.
unfoldable pub parse_loop : ℕ → ℕ → Loop → Outcome
parse_loop zero time l = if l.has_more then running l else returned l.ok l.buf l.context
parse_loop (suc fuel) time l = elim l.has_more [
  | false ↦ returned l.ok l.buf l.context
  | true ↦ elim (parse_step time l) [ none ↦ crashed | some next ↦ parse_loop fuel time next ]
]

-- `parseRequest(buf, receiveTime)`.
unfoldable pub parse_request : ℕ → Buffer → ℕ → HttpContext → Outcome
parse_request fuel buf time c =
    parse_loop fuel time (record { buf = buf; context = c; ok = true; has_more = true })
