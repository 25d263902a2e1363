-- ===== src/HttpRequest.antt =====
-- HttpRequest.h and HttpRequest.cc: a request as far as it has been parsed. A pair of pointers
-- into the input is the list of the bytes between them. `none` is a failed `assert`.
pub mod Laws
mod Tests
use mathlib.Core.Option
use conex.Prelude.{
  ℕ, suc, Bool, true, false, not, ◌&&◌, ◌||◌, Option, some, [], ◌∷◌, reverse, leb, ◌==◌,
  if◌then◌else◌, ◌>>◌, assert, take, drop, Bytes, codes, bytes_eq,
}
use conex.StdMap.{Entries, assign, find}

pub data Method : Type 0 where
  invalid get post head put delete : Method

pub data Version : Type 0 where
  unknow http10 http11 : Version

-- A time point is the count of nanoseconds since the epoch.
pub record HttpRequest : Type 0 where
  pub method : Method
  pub path : Bytes
  pub version : Version
  pub query : Bytes
  pub body : Bytes
  pub receive_time : ℕ
  pub headers : Entries

-- The constructor.
abbrev pub empty_request : HttpRequest
empty_request = record {
  method = invalid;
  path = [];
  version = unknow;
  query = [];
  body = [];
  receive_time = 0;
  headers = [];
}

abbrev pub is_invalid : Method → Bool
is_invalid invalid = true
is_invalid _ = false

-- The chain of comparisons in `setMethod`.
unfoldable pub method_of : Bytes → Method
method_of method =
    if bytes_eq method (codes "GET")
    then get
    else if bytes_eq method (codes "POST")
    then post
    else if bytes_eq method (codes "HEAD")
    then head
    else if bytes_eq method (codes "PUT")
    then put
    else if bytes_eq method (codes "DELETE")
    then delete
    else invalid

unfoldable pub set_method : Bytes → HttpRequest → Option (Bool × HttpRequest)
set_method method r = do
  assert (is_invalid r.method)
  let chosen = method_of method
  some (not (is_invalid chosen), record r { method = chosen })

-- The text that `methodString` builds; it returns a pointer into a string that is gone by then.
unfoldable pub method_string : Method → Bytes
method_string invalid = codes "INVALID"
method_string get = codes "GET"
method_string post = codes "POST"
method_string head = codes "HEAD"
method_string put = codes "PUT"
method_string delete = codes "DELETE"

abbrev pub set_version : Version → HttpRequest → HttpRequest
set_version v r = record r { version = v }

abbrev pub set_path : Bytes → HttpRequest → HttpRequest
set_path path r = record r { path = path }

abbrev pub set_query : Bytes → HttpRequest → HttpRequest
set_query query r = record r { query = query }

abbrev pub set_receive_time : ℕ → HttpRequest → HttpRequest
set_receive_time time r = record r { receive_time = time }

abbrev pub set_body : Bytes → HttpRequest → HttpRequest
set_body body r = record r { body = body }

-- `isspace` in the C locale: blanks and the five control characters from tab to carriage return. A
-- byte of 128 or more is a negative `char`, for which `isspace` is not defined, and no space here.
unfoldable pub is_space : ℕ → Bool
is_space c = c == b' ' || leb 9 c && leb c 13

-- `while(colon < end && isspace(*colon)) ++colon;`
unfoldable pub skip_spaces : Bytes → Bytes
unfolding is_space
skip_spaces [] = []
skip_spaces (c ∷ cs) = let rest = skip_spaces cs in if is_space c then rest else c ∷ cs

-- The loop that resizes `value` while its last byte is a space: the same walk from the other end.
unfoldable pub trim_end : Bytes → Bytes
trim_end value = reverse (skip_spaces (reverse value))

-- `line` is the range [start, end), `colon` the offset of the colon in it.
unfoldable pub add_header : Bytes → ℕ → HttpRequest → HttpRequest
add_header line colon r =
    let field = take colon line in
    let value = trim_end (skip_spaces (drop (suc colon) line)) in
    record r { headers = assign field value r.headers }

-- A missing header reads as the empty string.
unfoldable pub get_header : Bytes → HttpRequest → Bytes
get_header field r = Option.get_or (find field r.headers) []

-- `swap` exchanges every field.
abbrev pub swap_request : HttpRequest → HttpRequest → HttpRequest × HttpRequest
swap_request r other = (other, r)
