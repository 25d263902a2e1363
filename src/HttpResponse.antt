-- ===== src/HttpResponse.antt =====
-- HttpResponse.h and HttpResponse.cc: a response and the bytes that it is written as.
pub mod Output
mod Tests
use conex.Prelude.{
  ℕ, Bool, Option, some, [], ◌∷◌, ◌++◌, if◌then◌else◌, ◌>>=◌, ◌>>◌, length, take, Bytes, codes,
}
use conex.Buffer.{Buffer, append}
use conex.StdMap.{Entries, assign}
use conex.Decimal.{decimal}

pub data StatusCode : Type 0 where
  code_unknown code_200 code_301 code_400 code_404 code_501 : StatusCode

abbrev pub code_number : StatusCode → ℕ
code_number code_unknown = 0
code_number code_200 = 200
code_number code_301 = 301
code_number code_400 = 400
code_number code_404 = 404
code_number code_501 = 501

-- `cgi_` is never read.
pub record HttpResponse : Type 0 where
  pub status_code : StatusCode
  pub status_message : Bytes
  pub headers : Entries
  pub body : Bytes
  pub close_connection : Bool
  pub cgi : ℕ

-- The constructor.
abbrev pub make_response : Bool → HttpResponse
make_response close = record {
  status_code = code_unknown;
  status_message = [];
  headers = [];
  body = [];
  close_connection = close;
  cgi = 0;
}

abbrev pub set_status_code : StatusCode → HttpResponse → HttpResponse
set_status_code code r = record r { status_code = code }

abbrev pub set_status_message : Bytes → HttpResponse → HttpResponse
set_status_message msg r = record r { status_message = msg }

abbrev pub set_close_connection : Bool → HttpResponse → HttpResponse
set_close_connection on r = record r { close_connection = on }

abbrev pub set_response_body : Bytes → HttpResponse → HttpResponse
set_response_body body r = record r { body = body }

abbrev pub add_response_header : Bytes → Bytes → HttpResponse → HttpResponse
add_response_header key value r = record r { headers = assign key value r.headers }

abbrev pub set_content_type : Bytes → HttpResponse → HttpResponse
set_content_type content_type = add_response_header (codes "Content-Type") content_type

-- `snprintf` into `char buf[32]` keeps at most 31 bytes.
abbrev pub snprintf32 : Bytes → Bytes
snprintf32 text = take 31 text

-- The loop over the headers.
unfoldable pub append_headers : Entries → Buffer → Option Buffer
append_headers [] output = some output
append_headers ((key, value) ∷ rest) output = do
  o₁ ← append key output
  o₂ ← append (codes ": ") o₁
  o₃ ← append value o₂
  o₄ ← append (codes "\r\n") o₃
  append_headers rest o₄

-- The lines that say what becomes of the connection.
unfoldable pub append_connection : HttpResponse → Buffer → Option Buffer
append_connection r output =
    if r.close_connection then append (codes "Connection: close\r\n") output else (do
      o₁ ← append (snprintf32 (codes "Content-Length: " ++ decimal (length r.body))) output
      append (codes "Connection: Keep-Alive\r\n") o₁)

unfoldable pub append_to_buffer : HttpResponse → Buffer → Option Buffer
append_to_buffer r output = do
  o₁ ← append (snprintf32 (codes "HTTP/1.1 " ++ decimal (code_number r.status_code))) output
  o₂ ← append r.status_message o₁
  o₃ ← append (codes "\r\n") o₂
  o₄ ← append_connection r o₃
  o₅ ← append_headers r.headers o₄
  o₆ ← append (codes "\r\n") o₅
  append r.body o₆
