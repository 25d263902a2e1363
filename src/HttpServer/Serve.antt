-- ===== src/HttpServer/Serve.antt =====
-- The server's answers, from the bytes of the request to those of the response.
use conex.Prelude.{
  ℕ, ◌+◌, ◌-◌, ◌^◌, ◌≤◌, ◌<◌, ◌≡◌, sym, ap, ◌∙◌, ◌⊎◌, inl, inr, Bool, true, false, some, List, [],
  ◌∷◌, ◌++◌, arith, if◌then◌else◌, Bool-cases, length, take, drop, Bytes,
}
use conex.Memory.{max_size}
use conex.Memory.Laws.{read_at-some}
use conex.Buffer.{Buffer, initial_size, readable_bytes}
use conex.Buffer.Inv.{IsValid, contents, length-contents, make_lem}
use conex.Buffer.Search.{NoCrlf}
use conex.HttpRequest.{HttpRequest, empty_request}
use conex.HttpContext.{
  HttpContext, Outcome, fresh, get_all, process_request_line, parse_request, crashed, running,
  returned,
}
use conex.HttpContext.Complete.{
  Header, line_end, message, AreHeaders, EndsHeaders, header_map, parse_request_lem,
}
use conex.HttpResponse.{HttpResponse, make_response}
use conex.HttpResponse.Output.{response_text, append_to_buffer_lem}
use conex.HttpServer.{
  Action, Served, Reply, HttpCallback, must_close, on_request, after_parse, of_option, on_message,
  send, shutdown, fault, hangs, replied,
}
use conex.HttpContext.Stuck.{parse_request_incomplete, TrueResult, parse_request-TrueResult}

-- The response that the callback makes to a request, and what the server does with it.
abbrev pub response_to : HttpCallback → HttpRequest → HttpResponse
response_to callback request = callback request (make_response (must_close request))

abbrev pub answer : HttpCallback → HttpRequest → List Action
answer callback request =
    send (response_text (response_to callback request))
    ∷ (if must_close request then shutdown ∷ [] else [])

-- A response that a buffer can hold.
abbrev pub IsSendable : HttpResponse → Type 0
IsSendable r = (length r.body < 10 ^ 15) × (8 + length (response_text r) ≤ max_size)

on_request_lem :
    (callback : HttpCallback) (request : HttpRequest)
    → IsSendable (response_to callback request)
    → on_request callback request ≡ some (answer callback request)
unfolding on_request
on_request_lem callback request h =
    let (b, made, v, e, w, p) = make_lem initial_size (omega arith) in
    let resp = response_to callback request in
    let start : b.writer_index ≡ 8 = omega (arith, length-contents v, ap length e) in
    let o = append_to_buffer_lem resp v (omega arith) h.0 in
    let out = o.result in
    let k = o.valid in
    let n_eq : readable_bytes out ≡ out.writer_index - out.reader_index = omega arith in
    let text : take (readable_bytes out) (drop out.reader_index out.buffer) ≡ response_text resp =
      ap (λ n. take n (drop out.reader_index out.buffer)) n_eq
      ∙ o.holds
      ∙ ap (λ xs. xs ++ response_text resp) e in
    rw (
      made,
      o.returns,
      read_at-some out.buffer out.reader_index (readable_bytes out) (omega arith),
      text,
    )

on_message_returned :
    (callback : HttpCallback) (fuel time : ℕ) (b : Buffer) (c : HttpContext) {ok : Bool}
    {left : Buffer} {c' : HttpContext}
    → parse_request fuel b time c ≡ returned ok left c'
    → on_message callback fuel b time c ≡ of_option (after_parse callback ok left c')
unfolding on_message
on_message_returned callback fuel time b c e = rw (e, on_message)

-- On the bytes of one whole request the server sends one response, the text of what the callback
-- makes, shuts its side of the connection down exactly if the request asks for that, takes every
-- byte and is ready for the next request.
pub on_message_lem :
    (callback : HttpCallback) (line : Bytes) (hs : List Header) (last body : Bytes) (fuel time : ℕ)
    {b : Buffer} {q : HttpRequest}
    → IsValid b
    → contents b ≡ line ++ line_end (message hs last body)
    → NoCrlf (line ++ b'\r' ∷ [])
    → AreHeaders hs
    → EndsHeaders last
    → process_request_line line empty_request ≡ some (true, q)
    → length hs + 3 ≤ fuel
    → let request = record q {
      receive_time = time;
      headers = header_map hs q.headers;
      body = body;
    } in
      IsSendable (response_to callback request)
      → (left : Buffer) × (on_message callback fuel b time fresh
          ≡ replied (record { buf = left; context = fresh; actions = answer callback request }))
        × (contents left ≡ [])
unfolding after_parse
on_message_lem callback line hs last body fuel time {b} {q} v k n w e p f s =
    let request = record q {
      receive_time = time;
      headers = header_map hs q.headers;
      body = body;
    } in
    let r = parse_request_lem line hs last body fuel time v k n w e p f in
    (
      r.left,
      on_message_returned callback fuel time b fresh r.returns
          ∙ rw (on_request_lem callback request s),
      r.empty,
    )

-- As long as the request line has not arrived whole the handler does not return: the loop of the
-- connection, and every other connection on it, waits for good.
pub on_message_incomplete :
    (callback : HttpCallback) (fuel time : ℕ) {b : Buffer}
    → IsValid b
    → NoCrlf (contents b)
    → on_message callback fuel b time fresh ≡ hangs
unfolding on_message
on_message_incomplete callback fuel time v h =
    rw (parse_request_incomplete fuel time v h, on_message)

after_parse-actions :
    (callback : HttpCallback) (left : Buffer) (c : HttpContext) {s : Served}
    → of_option (after_parse callback true left c) ≡ replied s
    → (s.actions ≡ []) ⊎ ((request : HttpRequest) × (on_request callback request ≡ some s.actions))
unfolding after_parse
after_parse-actions callback left c e = elim (Bool-cases (get_all c)) [
  | inl t ↦ inr (c.request, ground arith)
  | inr t ↦ inl (ground arith)
]

reply_of : HttpCallback → Outcome → Reply
reply_of callback crashed = fault
reply_of callback (running l) = hangs
reply_of callback (returned ok left c) = of_option (after_parse callback ok left c)

on_message-reply_of :
    (callback : HttpCallback) (fuel time : ℕ) (b : Buffer) (c : HttpContext)
    → on_message callback fuel b time c ≡ reply_of callback (parse_request fuel b time c)
unfolding on_message reply_of
on_message-reply_of callback fuel time b c = ground arith

reply_of-actions :
    (callback : HttpCallback) (o : Outcome) {s : Served}
    → TrueResult o
    → reply_of callback o ≡ replied s
    → (s.actions ≡ []) ⊎ ((request : HttpRequest) × (on_request callback request ≡ some s.actions))
unfolding reply_of
reply_of-actions callback crashed h e = cc
reply_of-actions callback (running l) h e = cc
reply_of-actions callback (returned true left c) h e = after_parse-actions callback left c e
reply_of-actions callback (returned false left c) h e = cc

-- No reply holds the answer to a bad request: there is no action at all unless a request is
-- complete, and then those are the ones of `onRequest`.
pub on_message_actions :
    (callback : HttpCallback) (fuel time : ℕ) (b : Buffer) (c : HttpContext) {s : Served}
    → on_message callback fuel b time c ≡ replied s
    → (s.actions ≡ []) ⊎ ((request : HttpRequest) × (on_request callback request ≡ some s.actions))
on_message_actions callback fuel time b c e =
    reply_of-actions callback (parse_request fuel b time c) (parse_request-TrueResult fuel time b c)
      (sym (on_message-reply_of callback fuel time b c) ∙ e)
