-- ===== src/HttpContext/Stuck.antt =====
-- Where `parseRequest` does not come to its end: in state `kExpectRequestLine` nothing but a good
-- request line clears `hasMore`.
use conex.Prelude.{
  ℕ, zero, suc, ◌≡◌, refl, ap, ◌∙◌, ◌⊎◌, inl, inr, Bool, true, false, none, some, arith, Bool-cases,
  Option-cases, take, drop, Bytes,
}
use conex.Buffer.{Buffer, find_byte, offset_from, find_crlf}
use conex.Buffer.Inv.{IsValid, contents}
use conex.Buffer.Search.{NoCrlf, find_crlf-contents, search_crlf-none}
use conex.HttpRequest.{HttpRequest, empty_request, method_of, set_method}
use conex.HttpContext.{
  ParseState, HttpContext, Loop, Outcome, fresh, parse_version, parse_target, parse_rest,
  process_request_line, request_line_step, header_step, body_step, step_in, parse_step, parse_loop,
  parse_request, expect_request_line, expect_headers, expect_body, got_all, crashed, running,
  returned,
}
use conex.HttpContext.Steps.{loop_at, request_line_refused, parse_loop-step, request_line_crash}
use conex.HttpContext.Line.{Line, Taken, Line-Taken}

-- As long as the buffer holds no CR LF, the request line is not complete, and the loop goes round
-- with nothing changed: after any number of rounds it is where it began.
pub parse_request_incomplete :
    (fuel time : ℕ) {b : Buffer}
    → IsValid b
    → NoCrlf (contents b)
    → parse_request fuel b time fresh ≡ running (loop_at expect_request_line b empty_request)
unfolding parse_request parse_loop step_in
parse_request_incomplete fuel time {b} v h = rounds fuel
  where
    found : find_crlf b ≡ some none
    found =
        find_crlf-contents v
        ∙ ap (λ o. some (offset_from b.reader_index o)) (search_crlf-none (contents b) h)

    here : Loop
    here = loop_at expect_request_line b empty_request

    step : parse_step time here ≡ some here
    step = rw found

    rounds :
        (fuel : ℕ)
        → parse_loop fuel time (loop_at expect_request_line b empty_request)
          ≡ running (loop_at expect_request_line b empty_request)
    rounds zero = refl
    rounds (suc fuel) = parse_loop-step fuel time here refl step ∙ rounds fuel

-- What the loop keeps: as long as a request line has been refused it goes on.
abbrev Going : Loop → Type 0
Going l = (l.ok ≡ true) ⊎ ((l.context.state ≡ expect_request_line) × (l.has_more ≡ true))

-- A result of the parser, if there is one, is true.
abbrev pub TrueResult : Outcome → Type 0
TrueResult crashed = Unit {0}
TrueResult (running l) = Unit {0}
TrueResult (returned ok buf context) = ok ≡ true

request_line_step-Going :
    (time crlf : ℕ) (l : Loop) {next : Loop}
    → l.context.state ≡ expect_request_line
    → l.has_more ≡ true
    → request_line_step time crlf l ≡ some next
    → Going next
unfolding request_line_step
request_line_step-Going time crlf l s m h = ground arith

step_in-Going :
    (s : ParseState) (time : ℕ) (l : Loop) {next : Loop}
    → l.context.state ≡ s
    → l.has_more ≡ true
    → Going l
    → step_in s time l ≡ some next
    → Going next
unfolding step_in header_step body_step
step_in-Going expect_request_line time l s m g h = grind (arith, request_line_step-Going time)
step_in-Going expect_headers time l s m g h = ground arith
step_in-Going expect_body time l s m g h = ground arith
step_in-Going got_all time l s m g h = ground arith

parse_loop-TrueResult : (fuel time : ℕ) (l : Loop) → Going l → TrueResult (parse_loop fuel time l)
unfolding parse_loop
parse_loop-TrueResult zero time l g = ground arith
parse_loop-TrueResult (suc fuel) time l g = elim (Bool-cases l.has_more) [
  | inl m ↦ elim (Option-cases (parse_step time l)) [
    | inl e ↦ rw (m, e, parse_loop) tt
    | inr (next, e) ↦ rw (parse_loop-step fuel time l m e) (
        parse_loop-TrueResult fuel time next
          (step_in-Going l.context.state time l {next = next} refl m g e))
  ]
  | inr m ↦ rw (m, parse_loop) (ground arith)
]

-- Whatever has arrived, in whatever state the parser is, it never returns false: the answer
-- "400 Bad Request" of the server is out of reach.
pub parse_request-TrueResult :
    (fuel time : ℕ) (b : Buffer) (c : HttpContext) → TrueResult (parse_request fuel b time c)
unfolding parse_request
parse_request-TrueResult fuel time b c =
    parse_loop-TrueResult fuel time (record { buf = b; context = c; ok = true; has_more = true })
      (inl refl)

-- The parser does not come back.
abbrev pub NoReturn : Outcome → Type 0
NoReturn crashed = Unit {0}
NoReturn (running l) = Unit {0}
NoReturn (returned ok buf context) = ⊥

parse_rest-method : (text : Bytes) (r : HttpRequest) → (parse_rest text r).1.method ≡ r.method
unfolding parse_rest parse_version parse_target
parse_rest-method text r = ground arith

-- A line that was refused once is refused again in the same way, or meets the `assert` of
-- `setMethod`, as the method is set by then.
refused_again :
    (line : Bytes) (r q : HttpRequest)
    → process_request_line line r ≡ some (false, q)
    → (process_request_line line q ≡ none) ⊎ (process_request_line line q ≡ some (false, q))
unfolding process_request_line set_method
refused_again line r q h = elim (Option-cases (find_byte b' ' line)) [
  | inl e ↦ ground arith
  | inr (space, e) ↦ ground (
    arith,
    e,
    parse_rest-method (drop (suc space) line) (record r { method = method_of (take space line) }),
  )
]

-- A refused line is met again in the next round, or the program is gone.
refused_crash :
    (fuel time : ℕ) (line rest : Bytes) (b : Buffer) (r : HttpRequest) (ok : Bool)
    (t : Taken line rest b)
    → process_request_line line r ≡ none
    → NoReturn (parse_loop fuel time (record (loop_at expect_request_line b r) { ok = ok }))
unfolding parse_loop
refused_crash zero time line rest b r ok t h = tt
refused_crash (suc fuel) time line rest b r ok t h =
    rw (request_line_crash time line rest b r ok t h, parse_loop) tt

refused_rounds :
    (fuel time : ℕ) (line rest : Bytes) (b : Buffer) (r q : HttpRequest) (ok : Bool)
    (t : Taken line rest b)
    → process_request_line line r ≡ some (false, q)
    → NoReturn (parse_loop fuel time (record (loop_at expect_request_line b r) { ok = ok }))
unfolding parse_loop
refused_rounds zero time line rest b r q ok t h = tt
refused_rounds (suc fuel) time line rest b r q ok t h =
    let go : NoReturn
        (parse_loop fuel time (record (loop_at expect_request_line b q) { ok = false })) =
      elim (refused_again line r q h) [
        | inl e ↦ refused_crash fuel time line rest b q false t e
        | inr e ↦ refused_rounds fuel time line rest b q q false t e
      ] in
    rw (request_line_refused time line rest b r q ok t h, parse_loop) go

-- On a complete request line that is no good, `parseRequest` does not return: it runs into an
-- `assert`, or has not come to its end after any number of rounds.
pub parse_request_refused :
    (fuel time : ℕ) (line rest : Bytes) {b : Buffer} {q : HttpRequest}
    → Line line rest b
    → process_request_line line empty_request ≡ some (false, q)
    → NoReturn (parse_request fuel b time fresh)
unfolding parse_request
parse_request_refused fuel time line rest {b} {q} l h =
    refused_rounds fuel time line rest b empty_request q true (Line-Taken line rest l) h
