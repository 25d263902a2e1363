-- ===== src/HttpResponse/Tests.antt =====
-- Runs of the response, and the theorem about it at a concrete input.
use conex.Prelude.{◌≡◌, refl, false, arith, replicate, codes}
use conex.Buffer.{Buffer}
use conex.Buffer.Inv.{Holds}
use conex.StdMap.{assign}
use conex.Decimal.{decimal}
use conex.HttpResponse.{
  HttpResponse, make_response, set_status_code, set_status_message, set_response_body,
  set_content_type, append_to_buffer, code_200,
}
use conex.HttpResponse.Output.{response_text, append_to_buffer_lem}

abbrev output : Buffer
output = record { buffer = replicate 16 0; reader_index = 8; writer_index = 8 }

abbrev hello : HttpResponse
hello = set_content_type (codes "text/plain") (
    set_response_body (codes "hello")
      (set_status_message (codes "OK") (set_status_code code_200 (make_response false))))

-- The code and the message run together, and so do the length and the next header.
hello_text :
    response_text hello
    ≡ codes
        "HTTP/1.1 200OK\r\nContent-Length: 5Connection: Keep-Alive\r\nContent-Type: text/plain\r\n\r\nhello"
unfolding decimal assign
hello_text = refl

append_to_buffer_lem_example : Holds (response_text hello) (append_to_buffer hello output)
unfolding assign decimal
append_to_buffer_lem_example =
    append_to_buffer_lem hello {output = output} (omega arith) (omega arith) (omega arith)
