-- ===== src/TcpConnection/Pending.antt =====
-- The output that waits, and the channel that waits for it.
use conex.Prelude.{
  ℕ, ◌+◌, ◌-◌, ◌≤◌, ◌<◌, ◌≡◌, refl, sym, ap, ◌∙◌, subst, inl, inr, Bool, false, not, ◌&&◌, Option,
  none, some, List, [], ◌∷◌, ◌++◌, arith, ltb, ◌==◌, if◌then◌else◌, Bool-cases, ◌>>=◌, length, drop,
  length-drop, Bytes,
}
use conex.Memory.{max_size}
use conex.Buffer.{Buffer, Transfer, readable_bytes, retrieve, read_room, read_fd, failed, moved}
use conex.Buffer.Inv.{IsValid, contents, length-contents}
use conex.Channel.{is_writing, change_events, disable_writing}
use conex.Channel.Dispatch.{change_events_lem}
use conex.TcpConnection.{
  Effect, Connection, is_connected, is_disconnected, Step, after_write, buffer_rest, send_in_loop,
  send, shutdown, handle_close, force_close, force_close_in_loop, stop_read, start_read,
  handle_read, output_done, handle_write, queue_write_complete,
}
use conex.TcpConnection.Send.{IsIdle, Buffered, buffer_rest-Buffered}
use conex.TcpConnection.Lifecycle.{
  Call, run_call, sends, sends_in_loop, shuts_down, shuts_down_in_loop, force_closes,
  force_closes_in_loop, stops_read, starts_read, reads, writes, closes,
}
use conex.Buffer.Fd.{read_fd_lem, write_fd_lem}
use conex.Buffer.Retrieve.{retrieve_lem}
use conex.TcpConnection.Flush.{output_done_lem}

-- The channel waits to be writable exactly if output waits, until the connection is closed.
pub record IsPending (c : Connection) : Type 0 where
  pub valid : IsValid c.output_buffer
  pub input : IsValid c.input_buffer
  pub waits :
      is_disconnected c ≡ false → is_writing c.channel ≡ ltb 0 (readable_bytes c.output_buffer)

abbrev pub OnStep : (Connection → Type 0) → Option Step → Type 0
OnStep P none = ⊥
OnStep P (some s) = P s.0

-- What a call relies on: the output buffer can hold what is sent, and the kernel does not read more
-- than there is room for, or write more than it is given.
abbrev pub RoomFor : Call → Connection → Type 0
RoomFor (sends in_loop write bytes) c = c.output_buffer.writer_index + length bytes ≤ max_size
RoomFor (sends_in_loop write bytes) c = c.output_buffer.writer_index + length bytes ≤ max_size
RoomFor (reads (moved bytes) time) c =
    (length bytes ≤ read_room c.input_buffer)
    × (c.input_buffer.writer_index + read_room c.input_buffer ≤ max_size)
RoomFor (writes kernel) c =
    (n : ℕ) → kernel (contents c.output_buffer) ≡ moved n → n ≤ readable_bytes c.output_buffer
RoomFor _ c = Unit {0}

Buffered-IsPending :
    (rest : Bytes) (c : Connection) (r : Option Step)
    → IsValid c.input_buffer
    → Buffered rest c r
    → OnStep IsPending r
Buffered-IsPending rest c r i b =
    let size : length rest ≡ readable_bytes b.result.output_buffer =
      omega (arith, length-contents b.valid, ap length b.holds) in
    rw b.returns (record {
      valid = b.valid;
      input = subst IsValid (sym b.input_kept) i;
      waits = λ d. b.writing ∙ ap (λ n. ltb 0 n) size;
    })

-- More effects in front change nothing in this.
OnStep-more :
    (P : Connection → Type 0) (r : Option Step) (effects : List Effect)
    → OnStep P r
    → OnStep P (r >>= λ s. some (s.0, effects ++ s.1))
OnStep-more P none effects h = h
OnStep-more P (some s) effects h = h

contents-empty : (b : Buffer) → IsValid b → readable_bytes b ≡ 0 → contents b ≡ []
contents-empty b v e =
    let none_left : b.writer_index - b.reader_index ≡ 0 = omega arith in rw none_left refl

-- What `sendInLoop` does once the answer of `write` is known.
rest-pending :
    (fault : Bool) (remain : ℕ) (complete : List Effect) (bytes : Bytes) (c : Connection)
    → IsIdle c
    → IsValid c.input_buffer
    → remain ≤ length bytes
    → c.output_buffer.writer_index + length bytes ≤ max_size
    → OnStep IsPending (
        if not fault && ltb 0 remain
        then (do
          (c', effects) ← buffer_rest (drop (length bytes - remain) bytes) c
          some (c', complete ++ effects))
        else some (c, complete))
rest-pending fault remain complete bytes c i input h room =
    let rest = drop (length bytes - remain) bytes in
    let size = length-drop (length bytes - remain) bytes in
    elim (Bool-cases (not fault && ltb 0 remain)) [
      | inl t ↦ rw t (
          let p : 0 < remain = ground arith in
          OnStep-more IsPending (buffer_rest rest c) complete (
            Buffered-IsPending rest c (buffer_rest rest c) input
              (buffer_rest-Buffered rest c i (omega arith) (omega arith))))
      | inr t ↦ rw t (record {
        valid = i.output_valid;
        input = input;
        waits = λ d.
            let size : readable_bytes c.output_buffer ≡ 0 =
              omega (arith, length-contents i.output_valid, ap length i.output_empty) in
            i.not_writing ∙ ap (λ n. ltb 0 n) (sym size);
      })
    ]

after_write-remain : (answer : Transfer ℕ) (len : ℕ) → (after_write answer len).1 ≤ len
unfolding after_write
after_write-remain (failed e) len = omega arith
after_write-remain (moved n) len = omega arith

send_in_loop-pending :
    (write : Bytes → Transfer ℕ) (bytes : Bytes) (c : Connection)
    → IsPending c
    → c.output_buffer.writer_index + length bytes ≤ max_size
    → OnStep IsPending (send_in_loop write bytes c)
unfolding send_in_loop
send_in_loop-pending write bytes c v room = elim (Bool-cases (is_connected c)) [
  | inr n ↦ rw n v
  | inl k ↦ elim (Bool-cases (not (is_writing c.channel) && readable_bytes c.output_buffer == 0)) [
    | inr n ↦ rw (k, n) v
    | inl free ↦
        let empty : readable_bytes c.output_buffer ≡ 0 = ground arith in
        let idle : IsIdle c = record {
          is_open = ground arith;
          not_writing = ground arith;
          output_valid = v.valid;
          output_empty = contents-empty c.output_buffer v.valid empty;
        } in
        let w = after_write (write bytes) (length bytes) in
        rw (k, free)
          (rest-pending w.0 w.1
            (if w.2 && c.has_write_complete then queue_write_complete ∷ [] else []) bytes c idle
            v.input (after_write-remain (write bytes) (length bytes)) room)
  ]
]

wrote-pending :
    (answer : Transfer ℕ) (c : Connection)
    → IsPending c
    → is_disconnected c ≡ false
    → ((n : ℕ) → answer ≡ moved n → n ≤ readable_bytes c.output_buffer)
    → OnStep IsPending (elim answer [
      | failed e ↦ some (c, [])
      | moved n ↦ do
        output ← retrieve n c.output_buffer
        let c' = record c { output_buffer = output }
        some (if readable_bytes output == 0 then output_done c' else (c', []))
    ])
wrote-pending (failed e) c v d fits = v
wrote-pending (moved n) c v d fits =
    let r = retrieve_lem n v.valid (fits n refl) in
    let size : readable_bytes r.result ≡ readable_bytes c.output_buffer - n = omega (
      arith,
      length-contents v.valid,
      length-contents r.valid,
      ap length r.holds,
      length-drop n (contents c.output_buffer),
    ) in
    rw r.returns (elim (Bool-cases (readable_bytes r.result == 0)) [
      | inl e ↦
          rw (e, output_done_lem (record c { output_buffer = r.result }))
            (record {
              valid = r.valid;
              input = v.input;
              waits = λ k. (change_events_lem disable_writing c.channel).1 ∙ ground arith;
            })
      | inr e ↦
          rw e (record { valid = r.valid; input = v.input; waits = λ k. v.waits d ∙ ground arith })
    ])

handle_write-pending :
    (kernel : List ℕ → Transfer ℕ) (c : Connection)
    → IsPending c
    → RoomFor (writes kernel) c
    → OnStep IsPending (handle_write kernel c)
unfolding handle_write
handle_write-pending kernel c v fits = elim (Bool-cases (is_disconnected c)) [
  | inl d ↦ rw d v
  | inr d ↦
      rw (d, write_fd_lem kernel v.valid)
        (wrote-pending (kernel (contents c.output_buffer)) c v d fits)
]

handle_read-pending :
    (answer : Transfer (List ℕ)) (time : ℕ) (c : Connection)
    → IsPending c
    → RoomFor (reads answer time) c
    → OnStep IsPending (handle_read answer time c)
unfolding handle_read handle_close read_fd
handle_read-pending (failed e) time c v room = v
handle_read-pending (moved bytes) time c v room =
    let r = read_fd_lem bytes v.input room.0 room.1 in
    rw r.returns (elim (Bool-cases (ltb 0 (length bytes))) [
      | inl t ↦ rw t (record { valid = v.valid; input = r.valid; waits = v.waits })
      | inr t ↦ rw t (record { valid = v.valid; input = r.valid; waits = λ d. ground arith })
    ])

pub run_call-pending :
    (call : Call) (c : Connection)
    → IsPending c
    → RoomFor call c
    → OnStep IsPending (run_call call c)
unfolding run_call send shutdown force_close force_close_in_loop handle_close stop_read start_read
    change_events
run_call-pending (sends in_loop write bytes) c v room =
    let s = send_in_loop-pending write bytes c v room in ground arith
run_call-pending (sends_in_loop write bytes) c v room = send_in_loop-pending write bytes c v room
run_call-pending (reads answer time) c v room = handle_read-pending answer time c v room
run_call-pending (writes kernel) c v room = handle_write-pending kernel c v room
run_call-pending (shuts_down in_loop) c v room = ground arith
run_call-pending shuts_down_in_loop c v room = ground arith
run_call-pending force_closes c v room = ground arith
run_call-pending force_closes_in_loop c v room = ground arith
run_call-pending stops_read c v room = ground arith
run_call-pending starts_read c v room = ground arith
run_call-pending closes c v room = ground arith
