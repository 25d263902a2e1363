-- ===== src/HttpContext/Tests.antt =====
-- Runs of the parser, and the theorems about it at concrete inputs.
use conex.Prelude.{
  ◌+◌, ◌≡◌, refl, true, false, some, List, [], ◌∷◌, ◌++◌, arith, length, replicate, Bytes, codes,
  bytes_eq,
}
use conex.Buffer.{Buffer, find_byte}
use conex.Buffer.Inv.{IsValid}
use conex.HttpRequest.{HttpRequest, empty_request, method_of, set_method, get, post, http10, http11}
use conex.HttpContext.{
  fresh, parse_version, parse_target, parse_rest, process_request_line, parse_request,
  expect_request_line, running,
}
use conex.HttpContext.Line.{Line}
use conex.HttpContext.RequestLine.{request_line, process_request_line-request_line}
use conex.HttpContext.Complete.{Returns, Header, line_end, message, header_map, parse_request_lem}
use conex.HttpContext.Steps.{loop_at}
use conex.HttpContext.Stuck.{
  parse_request_incomplete, TrueResult, parse_request-TrueResult, NoReturn, parse_request_refused,
}

-- A buffer that holds a text behind the eight bytes at the front.
abbrev pub holding : Bytes → Buffer
holding text = record {
  buffer = replicate 8 0 ++ text;
  reader_index = 8;
  writer_index = 8 + length text;
}

abbrev pub get_line : Bytes
get_line = codes "GET /a?x=1 HTTP/1.1"

abbrev pub get_headers : List Header
get_headers = (codes "Host", codes " h ") ∷ (codes "Connection", codes " close") ∷ []

abbrev pub whole : Buffer
whole = holding (get_line ++ line_end (message get_headers [] (codes "hi")))

abbrev pub parsed_line : HttpRequest
parsed_line = record empty_request {
  method = get;
  path = codes "/a";
  query = codes "?x=1";
  version = http11;
}

pub whole-IsValid : IsValid whole
whole-IsValid = omega arith

pub get_line-parsed : process_request_line get_line empty_request ≡ some (true, parsed_line)
unfolding process_request_line set_method method_of bytes_eq parse_rest parse_version parse_target
    find_byte
get_line-parsed = refl

abbrev pub partial : Buffer
partial = holding (codes "GET / HT")

pub partial-IsValid : IsValid partial
partial-IsValid = omega arith

abbrev refused_line : Bytes
refused_line = codes "GET / HTTP/2.0"

refused_line-refused :
    process_request_line refused_line empty_request
    ≡ some (false, record empty_request { method = get; path = codes "/" })
unfolding process_request_line set_method method_of bytes_eq parse_rest parse_version parse_target
    find_byte
refused_line-refused = refl

refused_buffer : Line refused_line [] (holding (refused_line ++ line_end []))
refused_buffer = record { valid = omega arith; holds = refl; no_crlf = omega arith }

process_request_line-request_line_example :
    process_request_line (request_line post (codes "/p") (codes "?q") http10) empty_request
    ≡ some (
      true,
      record empty_request {
        method = post;
        path = codes "/p";
        query = codes "?q";
        version = http10;
      },
    )
process_request_line-request_line_example =
    process_request_line-request_line post (codes "/p") (codes "?q") http10 (λ e. cc) (λ e. cc)
      (omega arith) (omega arith) (omega arith)

parse_request_lem_example : Returns (parse_request 9 whole 7 fresh) (record parsed_line {
  receive_time = 7;
  headers = header_map get_headers [];
  body = codes "hi";
})
parse_request_lem_example =
    parse_request_lem get_line get_headers [] (codes "hi") 9 7 {b = whole} whole-IsValid refl
      (omega arith) (omega arith) (omega arith) get_line-parsed (omega arith)

parse_request_incomplete_example :
    parse_request 1000 partial 7 fresh ≡ running (loop_at expect_request_line partial empty_request)
parse_request_incomplete_example =
    parse_request_incomplete 1000 7 {b = partial} partial-IsValid (omega arith)

parse_request-TrueResult_here : TrueResult (parse_request 9 whole 7 fresh)
parse_request-TrueResult_here = parse_request-TrueResult 9 7 whole fresh

parse_request_refused_here :
    NoReturn (parse_request 5 (holding (refused_line ++ line_end [])) 7 fresh)
parse_request_refused_here =
    parse_request_refused 5 7 refused_line [] refused_buffer refused_line-refused
