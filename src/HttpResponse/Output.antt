-- ===== src/HttpResponse/Output.antt =====
-- What a response looks like on the wire.
use conex.Prelude.{
  ◌+◌, ◌^◌, ◌≤◌, ◌<◌, ◌≡◌, refl, ap, ◌∙◌, inl, inr, List, [], ◌∷◌, ◌++◌, append-nil, arith,
  if◌then◌else◌, Bool-cases, length, flatten, flatten-append, take-all, Bytes, codes,
}
use conex.Buffer.{Buffer}
use conex.Buffer.Sequence.{append_all, append_all-Grows, appends}
use conex.StdMap.{Entries}
use conex.Decimal.{decimal, length-decimal}
use conex.HttpResponse.{
  StatusCode, HttpResponse, code_number, snprintf32, append_headers, append_connection,
  append_to_buffer, code_unknown,
}
use conex.Memory.{max_size}
use conex.Buffer.Inv.{IsValid, Holds, contents}

abbrev header_pieces : Entries → List Bytes
header_pieces [] = []
header_pieces ((key, value) ∷ rest) = key ∷ codes ": " ∷ value ∷ codes "\r\n" ∷ header_pieces rest

abbrev connection_pieces : HttpResponse → List Bytes
connection_pieces r =
    if r.close_connection
    then codes "Connection: close\r\n" ∷ []
    else snprintf32 (codes "Content-Length: " ++ decimal (length r.body))
      ∷ codes "Connection: Keep-Alive\r\n"
      ∷ []

append_headers-pieces :
    (headers : Entries) (output : Buffer)
    → append_headers headers output ≡ append_all (header_pieces headers) output
unfolding append_headers
append_headers-pieces [] output = simp appends
append_headers-pieces ((key, value) ∷ rest) output = simp (append_headers-pieces rest, appends)

append_connection-pieces :
    (r : HttpResponse) (output : Buffer)
    → append_connection r output ≡ append_all (connection_pieces r) output
unfolding append_connection
append_connection-pieces r output = elim (Bool-cases r.close_connection) [
  | inl t ↦ rw t (simp appends)
  | inr t ↦ rw t (simp appends)
]

abbrev pieces : HttpResponse → List Bytes
pieces r =
    snprintf32 (codes "HTTP/1.1 " ++ decimal (code_number r.status_code))
    ∷ r.status_message
    ∷ codes "\r\n"
    ∷ (connection_pieces r ++ (header_pieces r.headers ++ codes "\r\n" ∷ r.body ∷ []))

append_to_buffer-pieces :
    (r : HttpResponse) (output : Buffer) → append_to_buffer r output ≡ append_all (pieces r) output
unfolding append_to_buffer
append_to_buffer-pieces r output = simp (append_connection-pieces, append_headers-pieces, appends)

-- The text of a response, piece by piece.
abbrev pub header_text : Entries → Bytes
header_text [] = []
header_text ((key, value) ∷ rest) =
    key ++ (codes ": " ++ (value ++ (codes "\r\n" ++ header_text rest)))

abbrev pub connection_text : HttpResponse → Bytes
connection_text r =
    if r.close_connection
    then codes "Connection: close\r\n"
    else codes "Content-Length: " ++ (decimal (length r.body) ++ codes "Connection: Keep-Alive\r\n")

abbrev pub response_text : HttpResponse → Bytes
response_text r =
    codes "HTTP/1.1 "
    ++ (decimal (code_number r.status_code)
        ++ (r.status_message
            ++ (codes "\r\n"
                ++ (connection_text r ++ (header_text r.headers ++ (codes "\r\n" ++ r.body))))))

flatten-header_pieces : (headers : Entries) → flatten (header_pieces headers) ≡ header_text headers
flatten-header_pieces [] = refl
flatten-header_pieces ((key, value) ∷ rest) =
    ap (λ t. key ++ (codes ": " ++ (value ++ (codes "\r\n" ++ t)))) (flatten-header_pieces rest)

-- Neither call of `snprintf` cuts anything off.
status_fits : (c : StatusCode) → length (decimal (code_number c)) ≤ 22
status_fits c = length-decimal (code_number c) 22 (code_bound c) (omega arith)
  where
    code_bound : (c : StatusCode) → code_number c < 10 ^ 22
    code_bound code_unknown = omega arith
    code_bound _ = omega arith

flatten-connection_pieces :
    (r : HttpResponse) → length r.body < 10 ^ 15 → flatten (connection_pieces r) ≡ connection_text r
flatten-connection_pieces r h = elim (Bool-cases r.close_connection) [
  | inl t ↦ rw t
  | inr t ↦
      rw (
        t,
        take-all 15 (decimal (length r.body)) (length-decimal (length r.body) 15 h (omega arith)),
      )
]

flatten-pieces : (r : HttpResponse) → length r.body < 10 ^ 15 → flatten (pieces r) ≡ response_text r
flatten-pieces r h =
    let tail = codes "\r\n" ∷ r.body ∷ [] in
    rw (
      take-all 22 (decimal (code_number r.status_code)) (status_fits r.status_code),
      flatten-append (connection_pieces r) (header_pieces r.headers ++ tail),
      flatten-append (header_pieces r.headers) tail,
      flatten-connection_pieces r h,
      flatten-header_pieces r.headers,
      append-nil r.body,
    )

-- `appendToBuffer` writes the status line, the lines on the connection, the headers in the order of
-- their names, a blank line and the body. (No blank stands between the status code and the message,
-- and no line end behind the content length.)
pub append_to_buffer_lem :
    (r : HttpResponse) {output : Buffer}
    → IsValid output
    → output.writer_index + length (response_text r) ≤ max_size
    → length r.body < 10 ^ 15
    → Holds (contents output ++ response_text r) (append_to_buffer r output)
append_to_buffer_lem r {output} v room h =
    let e = flatten-pieces r h in
    let g = append_all-Grows (pieces r) v (omega (arith, ap length e)) in
    record {
      result = g.result;
      returns = append_to_buffer-pieces r output ∙ g.returns;
      valid = g.valid;
      holds = g.holds ∙ ap (λ t. contents output ++ t) e;
    }
