-- ===== src/TcpConnection/Tests.antt =====
-- The theorems on concrete connections.
use conex.Prelude.{
  ℕ, ◌≡◌, refl, inl, true, some, List, [], ◌∷◌, ◌++◌, arith, ◌>>=◌, drop, replicate, Bytes,
}
use conex.Buffer.{Buffer, Transfer, failed, moved}
use conex.Channel.{change_events, enable_writing}
use conex.TcpConnection.{
  Connection, make_connection, set_write_complete, connect_established, send_in_loop, handle_write,
}
use conex.TcpConnection.Send.{Buffered, send_in_loop_lem, send_in_loop_lost}
use conex.TcpConnection.Lifecycle.{
  Call, run_calls, Advances, run_calls-Advances, sends, shuts_down, force_closes_in_loop,
  stops_read, starts_read, reads, writes,
}
use conex.Buffer.Inv.{IsValid, contents}
use conex.TcpConnection.Deliver.{deliver_lem}
use conex.TcpConnection.Flush.{Flushed, handle_write_lem, takes, drain}

-- A buffer of 16 bytes that holds `ab`.
abbrev two_bytes : Buffer
two_bytes = record {
  buffer = replicate 8 0 ++ (b'a' ∷ b'b' ∷ []) ++ replicate 6 0;
  reader_index = 8;
  writer_index = 10;
}

abbrev no_bytes : Buffer
no_bytes = record { buffer = replicate 16 0; reader_index = 8; writer_index = 8 }

abbrev message : Bytes
message = b'h' ∷ b'e' ∷ b'l' ∷ b'l' ∷ b'o' ∷ []

abbrev idle : Connection
idle = (connect_established (set_write_complete (make_connection 7 no_bytes no_bytes))).0

abbrev pending : Connection
pending = record idle {
  output_buffer = two_bytes;
  channel = change_events enable_writing idle.channel;
}

abbrev life : List Call
life = sends true (takes 1) message ∷ writes (takes 4) ∷ shuts_down true ∷ reads (moved []) 3 ∷ []

run_calls-Advances_example : Advances idle (run_calls life idle)
run_calls-Advances_example = run_calls-Advances life idle

send_in_loop_here : Buffered (drop 1 message) idle (send_in_loop (takes 1) message idle)
unfolding connect_established change_events
send_in_loop_here =
    send_in_loop_lem (takes 1) message 1 idle
      (record {
        is_open = refl;
        not_writing = refl;
        output_valid = omega arith;
        output_empty = refl;
      })
      refl (omega arith) (omega arith)

send_in_loop_lost_here : send_in_loop (takes 5) message pending ≡ some (pending, [])
unfolding connect_established change_events
send_in_loop_lost_here = send_in_loop_lost (takes 5) message pending (inl refl)

handle_write_lem_example : Flushed 2 pending (handle_write (takes 2) pending)
unfolding connect_established
handle_write_lem_example =
    handle_write_lem (takes 2) 2 pending refl (omega arith) refl (omega arith)

deliver_lem_example :
    (result : Connection) × ((do
      (c', effects) ← send_in_loop (takes 1) message idle
      drain (2 ∷ 2 ∷ []) c')
      ≡ some result)
    × IsValid result.output_buffer
    × (contents result.output_buffer ≡ [])
unfolding connect_established change_events
deliver_lem_example =
    deliver_lem (takes 1) message 1 (2 ∷ 2 ∷ []) idle
      (record {
        is_open = refl;
        not_writing = refl;
        output_valid = omega arith;
        output_empty = refl;
      })
      refl (omega arith) (omega arith)

-- A message that goes out in two parts, and the end of the connection.
abbrev two_parts : List Call
two_parts =
    sends true (takes 1) message
    ∷ stops_read
    ∷ writes (takes 3)
    ∷ starts_read
    ∷ reads (moved (b'o' ∷ b'k' ∷ [])) 3
    ∷ writes (takes 1)
    ∷ force_closes_in_loop
    ∷ []

abbrev fresh : Connection
fresh = set_write_complete (make_connection 7 no_bytes no_bytes)

count_of : Transfer ℕ → ℕ
count_of (failed e) = 0
count_of (moved n) = n
