-- ===== src/HttpServer/Setup.antt =====
-- HttpServer.h and HttpServer.cc: the server as an object, over TcpServer.
use conex.Prelude.{ℕ, ◌+◌, ◌-◌, ◌^◌, ℤ, pos, negsuc}
use conex.HttpServer.{HttpCallback, default_http_callback}
use conex.TcpServer.{
  set_thread_num as set_server_threads, start as start_server, TcpServer, Outcome, make_server,
}

pub record HttpServer : Type 0 where
  pub server : TcpServer
  pub http_callback : HttpCallback

-- The constructor, which gives the server's callbacks to its TcpServer.
abbrev pub make_http_server : HttpServer
make_http_server = record { server = make_server; http_callback = default_http_callback }

abbrev pub set_http_callback : HttpCallback → HttpServer → HttpServer
set_http_callback cb h = record h { http_callback = cb }

-- `setThreadNum(int)` passes on a `size_t`.
abbrev pub to_size : ℤ → ℕ
to_size (pos n) = n
to_size (negsuc n) = 2 ^ 64 - (n + 1)

abbrev pub set_threads : ℤ → HttpServer → Outcome
set_threads n h = set_server_threads (to_size n) h.server

abbrev pub start_http : HttpServer → Outcome
start_http h = start_server h.server
