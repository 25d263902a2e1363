-- ===== src/HttpContext/Complete.antt =====
-- A request that has arrived whole is parsed whole.
use conex.Prelude.{
  ℕ, zero, suc, ◌+◌, ◌≤◌, ◌≡◌, refl, ◌∙◌, subst, true, false, some, List, [], ◌∷◌, ◌++◌, arith,
  length, take-all, take-append_le, drop-past, Bytes,
}
use conex.Buffer.{Buffer, retrieve_all}
use conex.Buffer.Inv.{IsValid, contents}
use conex.Buffer.Search.{NoCrlf, Lacks}
use conex.StdMap.{Entries, assign}
use conex.HttpRequest.{
  HttpRequest, empty_request, set_receive_time, set_body, skip_spaces, trim_end, add_header,
}
use conex.HttpContext.{
  Outcome, fresh, process_request_line, parse_loop, parse_request, expect_request_line,
  expect_headers, expect_body, got_all, returned,
}
use conex.HttpContext.Line.{Line-Taken}
use conex.HttpContext.Steps.{
  loop_at, request_line_accepted, header_read, headers_end, body_read, parse_loop-step,
  parse_loop-end,
}

-- A header as its name and the text behind the colon.
abbrev pub Header : Type 0
Header = Bytes × Bytes

abbrev pub header_line : Header → Bytes
header_line (field, text) = field ++ b':' ∷ text

abbrev pub line_end : Bytes → Bytes
line_end rest = b'\r' ∷ b'\n' ∷ rest

-- The bytes of the headers, of the line with no colon that ends them, and of the body.
abbrev pub message : List Header → Bytes → Bytes → Bytes
message [] last body = last ++ line_end body
message (h ∷ hs) last body = header_line h ++ line_end (message hs last body)

-- What a header line may hold, and the line that ends the headers.
abbrev pub IsHeader : Header → Type 0
IsHeader (field, text) = Lacks b':' field × NoCrlf (header_line (field, text) ++ b'\r' ∷ [])

abbrev pub AreHeaders : List Header → Type 0
AreHeaders [] = Unit {0}
AreHeaders (h ∷ hs) = IsHeader h × AreHeaders hs

abbrev pub EndsHeaders : Bytes → Type 0
EndsHeaders last = Lacks b':' last × NoCrlf (last ++ b'\r' ∷ [])

-- The map that the headers make: a later value for a name replaces an earlier one.
abbrev pub header_map : List Header → Entries → Entries
header_map [] entries = entries
header_map ((field, text) ∷ hs) entries =
    header_map hs (assign field (trim_end (skip_spaces text)) entries)

-- The loop comes to its end with this result, and leaves an empty buffer.
pub record Returns (outcome : Outcome) (request : HttpRequest) : Type 0 where
  pub left : Buffer
  pub returns : outcome ≡ returned true left (record { request = request; state = got_all })
  pub valid : IsValid left
  pub empty : contents left ≡ []

parse_body :
    (fuel time : ℕ) {b : Buffer} (r : HttpRequest)
    → 1 ≤ fuel
    → IsValid b
    → Returns (parse_loop fuel time (loop_at expect_body b r)) (set_body (contents b) r)
parse_body zero time r h v = absurd (omega arith)
parse_body (suc fuel) time {b} r h v =
    let last = record (loop_at got_all (retrieve_all b) (set_body (contents b) r)) {
      has_more = false;
    } in
    record {
      left = retrieve_all b;
      returns =
          parse_loop-step fuel time (loop_at expect_body b r) refl (body_read time r v)
          ∙ parse_loop-end fuel time last refl;
      valid = omega arith;
      empty = refl;
    }

add_header-map :
    (field text : Bytes) (r : HttpRequest)
    → add_header (field ++ b':' ∷ text) (length field) r
      ≡ record r { headers = assign field (trim_end (skip_spaces text)) r.headers }
unfolding add_header
add_header-map field text r = rw (
  take-append_le (length field) field (b':' ∷ text) (omega arith),
  take-all (length field) field (omega arith),
  drop-past field b':' text,
)

parse_headers :
    (hs : List Header) (last body : Bytes) (fuel time : ℕ) {b : Buffer} (r : HttpRequest)
    → length hs + 2 ≤ fuel
    → AreHeaders hs
    → EndsHeaders last
    → IsValid b
    → contents b ≡ message hs last body
    → Returns
        (parse_loop fuel time (loop_at expect_headers b r))
        (record r { headers = header_map hs r.headers; body = body })
parse_headers hs last body zero time r f w e v k = absurd (omega arith)
parse_headers [] last body (suc fuel) time {b} r f w e v k =
    let t = Line-Taken last body (record { valid = v; holds = k; no_crlf = e.1 }) in
    rw
      (parse_loop-step fuel time (loop_at expect_headers b r) refl
        (headers_end time last body b r t e.0))
      (subst (λ xs. Returns (parse_loop fuel time (loop_at expect_body t.left r)) (set_body xs r))
        t.holds (parse_body fuel time r (omega arith) t.valid))
parse_headers ((field, text) ∷ hs) last body (suc fuel) time {b} r f w e v k =
    let rest = message hs last body in
    let t =
      Line-Taken (field ++ b':' ∷ text) rest (record { valid = v; holds = k; no_crlf = w.0.1 }) in
    rw
      (
        parse_loop-step fuel time (loop_at expect_headers b r) refl
            (header_read time field text rest b r t w.0.0),
        add_header-map field text r,
      )
      (parse_headers hs last body fuel time
        (record r { headers = assign field (trim_end (skip_spaces text)) r.headers }) (omega arith)
        w.1 e t.valid t.holds)

-- When the buffer holds a request line that `processRequestLine` accepts, header lines, a line with
-- no colon and then the body, `parseRequest` returns true within as many rounds as there are lines
-- and one more, has taken every byte, and leaves the request of that line, stamped with the time of
-- receipt, with the trimmed headers and the body.
pub parse_request_lem :
    (line : Bytes) (hs : List Header) (last body : Bytes) (fuel time : ℕ) {b : Buffer}
    {q : HttpRequest}
    → IsValid b
    → contents b ≡ line ++ line_end (message hs last body)
    → NoCrlf (line ++ b'\r' ∷ [])
    → AreHeaders hs
    → EndsHeaders last
    → process_request_line line empty_request ≡ some (true, q)
    → length hs + 3 ≤ fuel
    → Returns
        (parse_request fuel b time fresh)
        (record q { receive_time = time; headers = header_map hs q.headers; body = body })
unfolding parse_request
parse_request_lem line hs last body zero time v k n w e p f = absurd (omega arith)
parse_request_lem line hs last body (suc fuel) time {b} {q} v k n w e p f =
    let rest = message hs last body in
    let t = Line-Taken line rest (record { valid = v; holds = k; no_crlf = n }) in
    rw
      (parse_loop-step fuel time (loop_at expect_request_line b empty_request) refl
        (request_line_accepted time line rest b empty_request q t p))
      (parse_headers hs last body fuel time (set_receive_time time q) (omega arith) w e t.valid
        t.holds)
