-- ===== src/HttpContext/Steps.antt =====
-- One round of the parser in each of its states, when the bytes it waits for are there.
use conex.Prelude.{
  ℕ, zero, suc, ◌-◌, ◌≡◌, refl, Bool, true, false, none, some, [], ◌∷◌, ◌++◌, arith, ==_refl,
  length, Bytes,
}
use conex.Memory.Laws.{read_at-some}
use conex.Buffer.{Buffer, readable_bytes, retrieve_all, find_byte}
use conex.Buffer.Inv.{IsValid, contents}
use conex.Buffer.Search.{Lacks}
use conex.HttpRequest.{HttpRequest, set_receive_time, set_body, add_header}
use conex.HttpContext.{
  ParseState, Loop, process_request_line, request_line_step, header_step, body_step, step_in,
  parse_step, parse_loop, expect_request_line, expect_headers, expect_body, got_all, crashed,
  returned,
}
use conex.HttpContext.Line.{Taken}

-- The loop in a given state, before its end.
abbrev pub loop_at : ParseState → Buffer → HttpRequest → Loop
loop_at state buf request = record {
  buf = buf;
  context = record { request = request; state = state };
  ok = true;
  has_more = true;
}

pub request_line_accepted :
    (time : ℕ) (line rest : Bytes) (b : Buffer) (r q : HttpRequest) (t : Taken line rest b)
    → process_request_line line r ≡ some (true, q)
    → parse_step time (loop_at expect_request_line b r)
      ≡ some (loop_at expect_headers t.left (set_receive_time time q))
unfolding step_in request_line_step
request_line_accepted time line rest b r q t h = rw (t.found, t.reads, h, t.retrieves)

pub request_line_refused :
    (time : ℕ) (line rest : Bytes) (b : Buffer) (r q : HttpRequest) (ok : Bool)
    (t : Taken line rest b)
    → process_request_line line r ≡ some (false, q)
    → parse_step time (record (loop_at expect_request_line b r) { ok = ok })
      ≡ some (record (loop_at expect_request_line b q) { ok = false })
unfolding step_in request_line_step
request_line_refused time line rest b r q ok t h = rw (t.found, t.reads, h)

pub find_byte-append :
    (x : ℕ) (xs rest : Bytes) → Lacks x xs → find_byte x (xs ++ x ∷ rest) ≡ some (length xs)
unfolding find_byte
find_byte-append x [] rest h = rw (==_refl x)
find_byte-append x (c ∷ cs) rest h = ground (arith, find_byte-append x cs rest h.1)

pub find_byte-none : (x : ℕ) (xs : Bytes) → Lacks x xs → find_byte x xs ≡ none
unfolding find_byte
find_byte-none x [] h = refl
find_byte-none x (c ∷ cs) h = ground (arith, find_byte-none x cs h.1)

pub header_read :
    (time : ℕ) (field text rest : Bytes) (b : Buffer) (r : HttpRequest)
    (t : Taken (field ++ b':' ∷ text) rest b)
    → Lacks b':' field
    → parse_step time (loop_at expect_headers b r)
      ≡ some (loop_at expect_headers t.left (add_header (field ++ b':' ∷ text) (length field) r))
unfolding step_in header_step
header_read time field text rest b r t h =
    rw (t.found, t.reads, find_byte-append b':' field text h, t.retrieves)

pub headers_end :
    (time : ℕ) (last rest : Bytes) (b : Buffer) (r : HttpRequest) (t : Taken last rest b)
    → Lacks b':' last
    → parse_step time (loop_at expect_headers b r) ≡ some (loop_at expect_body t.left r)
unfolding step_in header_step
headers_end time last rest b r t h = rw (t.found, t.reads, find_byte-none b':' last h, t.retrieves)

pub body_read :
    (time : ℕ) {b : Buffer} (r : HttpRequest)
    → IsValid b
    → parse_step time (loop_at expect_body b r)
      ≡ some
          (record (loop_at got_all (retrieve_all b) (set_body (contents b) r)) { has_more = false })
unfolding step_in body_step
body_read time {b} r v =
    let e : readable_bytes b ≡ b.writer_index - b.reader_index = omega arith in
    rw (read_at-some b.buffer b.reader_index (readable_bytes b) (omega arith), e)

-- A round of the loop that is not the last.
pub parse_loop-step :
    (fuel time : ℕ) (l : Loop) {next : Loop}
    → l.has_more ≡ true
    → parse_step time l ≡ some next
    → parse_loop (suc fuel) time l ≡ parse_loop fuel time next
unfolding parse_loop
parse_loop-step fuel time l more h = rw (more, h, parse_loop)

pub parse_loop-end :
    (fuel time : ℕ) (l : Loop)
    → l.has_more ≡ false
    → parse_loop fuel time l ≡ returned l.ok l.buf l.context
unfolding parse_loop
parse_loop-end zero time l more = rw more
parse_loop-end (suc fuel) time l more = rw (more, parse_loop)

pub request_line_crash :
    (time : ℕ) (line rest : Bytes) (b : Buffer) (r : HttpRequest) (ok : Bool)
    (t : Taken line rest b)
    → process_request_line line r ≡ none
    → parse_step time (record (loop_at expect_request_line b r) { ok = ok }) ≡ none
unfolding step_in request_line_step
request_line_crash time line rest b r ok t h = rw (t.found, t.reads, h)

pub parse_loop-crash :
    (fuel time : ℕ) (l : Loop)
    → l.has_more ≡ true
    → parse_step time l ≡ none
    → parse_loop (suc fuel) time l ≡ crashed
unfolding parse_loop
parse_loop-crash fuel time l more h = rw (more, h, parse_loop)
