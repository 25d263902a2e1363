-- ===== src/HttpContext/RequestLine.antt =====
-- The request line: what `processRequestLine` reads in a line that is written as it should be.
use conex.Prelude.{
  ℕ, suc, ◌≡◌, refl, ap, ◌≢◌, true, false, not, some, [], ◌∷◌, ◌++◌, append-nil, arith,
  if◌then◌else◌, ◌>>=◌, length, take, drop, take-prefix, drop-prefix, drop-past, Bytes, codes,
  bytes_eq,
}
use conex.Buffer.Search.{Lacks}
use conex.HttpRequest.{
  Method, Version, HttpRequest, empty_request, is_invalid, set_method, method_string, set_version,
  set_path, set_query, invalid, unknow, http10, http11,
}
use conex.HttpRequest.Laws.{method_of-method_string}
use conex.HttpContext.{parse_version, parse_target, parse_rest, process_request_line}
use conex.HttpContext.Steps.{find_byte-append, find_byte-none}
use conex.Buffer.{find_byte}

abbrev pub version_string : Version → Bytes
version_string unknow = codes "HTTP/0.9"
version_string http10 = codes "HTTP/1.0"
version_string http11 = codes "HTTP/1.1"

-- "METHOD path[?query] VERSION"; the query is empty or begins with its mark.
abbrev pub request_line : Method → Bytes → Bytes → Version → Bytes
request_line m path query v = method_string m ++ b' ' ∷ ((path ++ query) ++ b' ' ∷ version_string v)

abbrev pub IsQuery : Bytes → Type 0
IsQuery [] = Unit {0}
IsQuery (c ∷ cs) = (c ≡ b'?') × Lacks b' ' cs

Lacks-append : (x : ℕ) (xs ys : Bytes) → Lacks x xs → Lacks x ys → Lacks x (xs ++ ys)
Lacks-append x [] ys hx hy = hy
Lacks-append x (c ∷ cs) ys hx hy = (hx.0, Lacks-append x cs ys hx.1 hy)

method_string-Lacks : (m : Method) → Lacks b' ' (method_string m)
unfolding method_string
method_string-Lacks invalid = omega arith
method_string-Lacks _ = omega arith

IsQuery-Lacks : (query : Bytes) → IsQuery query → Lacks b' ' query
IsQuery-Lacks [] h = tt
IsQuery-Lacks (c ∷ cs) h = (omega arith, h.1)

parse_version_lem :
    (v : Version) (r : HttpRequest)
    → v ≢ unknow
    → parse_version (version_string v) r ≡ (true, set_version v r)
unfolding parse_version bytes_eq
parse_version_lem unknow r h = absurd (h refl)
parse_version_lem http10 r h = refl
parse_version_lem http11 r h = refl

-- Each search, once it has found its byte.
process_request_line_found :
    (line : Bytes) (space : ℕ) (r : HttpRequest)
    → find_byte b' ' line ≡ some space
    → process_request_line line r ≡ (do
      (known, r') ← set_method (take space line) r
      some (if known then parse_rest (drop (suc space) line) r' else (false, r')))
unfolding process_request_line
process_request_line_found line space r e = rw (e, process_request_line)

parse_rest_found :
    (text : Bytes) (space : ℕ) (r : HttpRequest)
    → find_byte b' ' text ≡ some space
    → parse_rest text r ≡ parse_version (drop (suc space) text) (parse_target (take space text) r)
unfolding parse_rest
parse_rest_found text space r e = rw (e, parse_rest)

parse_target_found :
    (target : Bytes) (q : ℕ) (r : HttpRequest)
    → find_byte b'?' target ≡ some q
    → parse_target target r ≡ set_query (drop q target) (set_path (take q target) r)
unfolding parse_target
parse_target_found target q r e = rw (e, parse_target)

parse_target_lem :
    (path query : Bytes) (r : HttpRequest)
    → Lacks b'?' path
    → IsQuery query
    → r.query ≡ []
    → parse_target (path ++ query) r ≡ record r { path = path; query = query }
unfolding parse_target
parse_target_lem path [] r h q e = rw (append-nil path) (ground (arith, find_byte-none b'?' path h))
parse_target_lem path (c ∷ cs) r h q e = rw (
  q.0,
  parse_target_found (path ++ b'?' ∷ cs) (length path) r (find_byte-append b'?' path cs h),
  take-prefix path (b'?' ∷ cs),
  drop-prefix path (b'?' ∷ cs),
)

-- A line written as "METHOD path[?query] HTTP/1.x" is accepted, and read back into its parts.
pub process_request_line-request_line :
    (m : Method) (path query : Bytes) (v : Version)
    → m ≢ invalid
    → v ≢ unknow
    → Lacks b' ' path
    → Lacks b'?' path
    → IsQuery query
    → process_request_line (request_line m path query v) empty_request
      ≡ some (true, record empty_request { method = m; path = path; query = query; version = v })
unfolding set_method
process_request_line-request_line m path query v hm hv hp hq q =
    let rest = (path ++ query) ++ b' ' ∷ version_string v in
    let r = record empty_request { method = m } in
    rw
      (
        process_request_line_found (request_line m path query v) (length (method_string m))
            empty_request (find_byte-append b' ' (method_string m) rest (method_string-Lacks m)),
        take-prefix (method_string m) (b' ' ∷ rest),
        drop-past (method_string m) b' ' rest,
        method_of-method_string m,
        valid_method m hm,
        parse_rest_found rest (length (path ++ query)) r (
            find_byte-append b' ' (path ++ query) (version_string v)
              (Lacks-append b' ' path query hp (IsQuery-Lacks query q))),
        take-prefix (path ++ query) (b' ' ∷ version_string v),
        drop-past (path ++ query) b' ' (version_string v),
        parse_target_lem path query r hq q refl,
      )
      (ap some (parse_version_lem v (record r { path = path; query = query }) hv))
  where
    valid_method : (m : Method) → m ≢ invalid → not (is_invalid m) ≡ true
    valid_method invalid h = absurd (h refl)
    valid_method _ h = refl
