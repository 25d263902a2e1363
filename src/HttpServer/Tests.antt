-- ===== src/HttpServer/Tests.antt =====
-- The theorems about the server at concrete inputs.
use conex.Prelude.{
  ◌≡◌, refl, ◌⊎◌, true, some, List, [], ◌∷◌, ◌++◌, arith, replicate, Bytes, codes, bytes_eq,
}
use conex.Buffer.{Buffer, search_crlf, find_byte, find_crlf, read_room, moved}
use conex.Memory.{read_at}
use conex.Buffer.Inv.{contents}
use conex.Decimal.{decimal}
use conex.HttpRequest.{HttpRequest, empty_request, method_of, set_method, get_header, get, http11}
use conex.HttpContext.{
  fresh, parse_version, parse_target, parse_rest, process_request_line, step_in, parse_loop,
  parse_request, expect_headers,
}
use conex.HttpContext.Complete.{line_end, message}
use conex.HttpServer.{
  Action, default_http_callback, must_close, on_request, after_parse, on_message, replied,
}
use conex.HttpServer.Serve.{response_to, answer, IsSendable, on_message_lem, on_message_actions}
use conex.Channel.{change_events}
use conex.TcpConnection.{Connection, make_connection, connect_established}
use conex.TcpConnection.Send.{IsIdle}
use conex.TcpConnection.Flush.{takes}
use conex.HttpResponse.Output.{response_text}
use conex.HttpServer.Session.{receive}
use conex.HttpServer.Exchange.{Exchanged, exchange_lem}

abbrev get_line : Bytes
get_line = codes "GET / HTTP/1.1"

abbrev whole : Buffer
whole = record {
  buffer = replicate 8 0 ++ (get_line ++ line_end (message [] [] []));
  reader_index = 8;
  writer_index = 26;
}

abbrev parsed_line : HttpRequest
parsed_line = record empty_request { method = get; path = codes "/"; version = http11 }

get_line-parsed : process_request_line get_line empty_request ≡ some (true, parsed_line)
unfolding process_request_line set_method method_of bytes_eq parse_rest parse_version parse_target
    find_byte
get_line-parsed = refl

abbrev request : HttpRequest
request = record parsed_line { receive_time = 7 }

sendable : IsSendable (response_to default_http_callback request)
unfolding default_http_callback must_close get_header bytes_eq decimal
sendable = omega arith

on_message_here :
    (left : Buffer) × (on_message default_http_callback 9 whole 7 fresh
      ≡ replied
          (record { buf = left; context = fresh; actions = answer default_http_callback request }))
    × (contents left ≡ [])
on_message_here =
    on_message_lem default_http_callback get_line [] [] [] 9 7 {b = whole} (omega arith) refl
      (omega arith) tt (omega arith) get_line-parsed (omega arith) sendable

abbrev partial : Buffer
partial = record { buffer = replicate 8 0 ++ codes "GET"; reader_index = 8; writer_index = 11 }

nothing_yet :
    on_message default_http_callback 3 partial 7
      (record { request = request; state = expect_headers })
    ≡ replied (record {
      buf = partial;
      context = record { request = request; state = expect_headers };
      actions = [];
    })
unfolding on_message parse_request parse_loop step_in find_crlf search_crlf read_at after_parse
nothing_yet = refl

on_message_actions_here :
    (◌≡◌ {A = List Action} [] [])
    ⊎ ((r : HttpRequest) × (on_request default_http_callback r ≡ some []))
on_message_actions_here =
    on_message_actions default_http_callback 3 7 partial
      (record { request = request; state = expect_headers }) nothing_yet

abbrev no_bytes : Buffer
no_bytes = record { buffer = replicate 64 0; reader_index = 8; writer_index = 8 }

abbrev conn : Connection
conn = (connect_established (make_connection 7 no_bytes no_bytes)).0

conn-IsIdle : IsIdle conn
unfolding connect_established change_events
conn-IsIdle = record {
  is_open = refl;
  not_writing = refl;
  output_valid = omega arith;
  output_empty = refl;
}

-- The kernel takes 20 bytes of the response at once, and then at most 50 twice.
exchange_lem_example :
    Exchanged
      (response_text (response_to default_http_callback request))
      20
      (50 ∷ 50 ∷ [])
      (must_close request)
      (receive default_http_callback 9
        (takes 20)
        (moved (get_line ++ line_end (message [] [] [])))
        7
        (record { conn = conn; context = fresh }))
unfolding connect_established default_http_callback must_close get_header bytes_eq decimal read_room
exchange_lem_example =
    exchange_lem default_http_callback get_line [] [] [] 9 7
      (get_line ++ line_end (message [] [] [])) (takes 20) 20 (50 ∷ 50 ∷ []) conn conn-IsIdle
      (omega arith) (omega arith) (omega arith) (omega arith) refl (omega arith) tt (omega arith)
      get_line-parsed (omega arith) sendable refl (omega arith) (omega arith)
