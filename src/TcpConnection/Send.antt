-- ===== src/TcpConnection/Send.antt =====
-- What becomes of the bytes that are sent.
use conex.Prelude.{
  ℕ, ◌+◌, ◌-◌, ◌≤◌, ◌<◌, ◌≡◌, refl, sym, ap, ◌∙◌, ◌⊎◌, inl, inr, Bool, true, false, ◌||◌, Option,
  some, List, [], ◌∷◌, ◌++◌, arith, ltb, ◌==◌, if◌then◌else◌, ltb→lt, lt→ltb, ltb-false→le, eq→==,
  Bool-cases, ◌>>=◌, length, drop, length-drop, drop-all, Bytes,
}
use conex.Memory.{max_size}
use conex.Buffer.{Transfer, readable_bytes, moved}
use conex.Buffer.Inv.{IsValid, contents, length-contents}
use conex.Buffer.Append.{append_lem}
use conex.Channel.{is_writing, change_events, enable_writing}
use conex.Channel.Dispatch.{change_events_lem}
use conex.TcpConnection.{
  Effect, Connection, Step, after_write, high_water, buffer_rest, write_complete, send_in_loop,
  connected, update, queue_send, queue_write_complete, queue_shutdown, queue_force_close,
  queue_high_water, shutdown_write, message_callback, close_callback,
}

-- Nothing is left from an earlier message.
pub record IsIdle (c : Connection) : Type 0 where
  pub is_open : c.state ≡ connected
  pub not_writing : is_writing c.channel ≡ false
  pub output_valid : IsValid c.output_buffer
  pub output_empty : contents c.output_buffer ≡ []

-- Whether the socket's writing side is shut down.
abbrev pub has_shutdown : List Effect → Bool
has_shutdown [] = false
has_shutdown (shutdown_write ∷ effects) = true
has_shutdown (e ∷ effects) = has_shutdown effects

pub has_shutdown-append :
    (es fs : List Effect) → has_shutdown (es ++ fs) ≡ (has_shutdown es || has_shutdown fs)
has_shutdown-append [] fs = refl
has_shutdown-append (shutdown_write ∷ es) fs = refl
has_shutdown-append (update c ∷ es) fs = has_shutdown-append es fs
has_shutdown-append (queue_send b ∷ es) fs = has_shutdown-append es fs
has_shutdown-append (queue_write_complete ∷ es) fs = has_shutdown-append es fs
has_shutdown-append (queue_shutdown ∷ es) fs = has_shutdown-append es fs
has_shutdown-append (queue_force_close ∷ es) fs = has_shutdown-append es fs
has_shutdown-append (queue_high_water n ∷ es) fs = has_shutdown-append es fs
has_shutdown-append (message_callback n ∷ es) fs = has_shutdown-append es fs
has_shutdown-append (close_callback ∷ es) fs = has_shutdown-append es fs

high_water-has_shutdown :
    (old_len remain : ℕ) (c : Connection) → has_shutdown (high_water old_len remain c) ≡ false
unfolding high_water
high_water-has_shutdown old_len remain c = ground arith

write_complete-has_shutdown :
    (done : Bool) (c : Connection) → has_shutdown (write_complete done c) ≡ false
write_complete-has_shutdown done c = ground arith

-- The connection after the rest of a message has been buffered.
pub record Buffered (rest : Bytes) (c : Connection) (r : Option Step) : Type 0 where
  pub result : Connection
  pub effects : List Effect
  pub returns : r ≡ some (result, effects)
  pub state_kept : result.state ≡ c.state
  pub valid : IsValid result.output_buffer
  pub holds : contents result.output_buffer ≡ rest
  pub writing : is_writing result.channel ≡ ltb 0 (length rest)
  pub input_kept : result.input_buffer ≡ c.input_buffer
  pub open_kept : has_shutdown effects ≡ false

pub buffer_rest-Buffered :
    (rest : Bytes) (c : Connection)
    → IsIdle c
    → 0 < length rest
    → c.output_buffer.writer_index + length rest ≤ max_size
    → Buffered rest c (buffer_rest rest c)
unfolding buffer_rest
buffer_rest-Buffered rest c i p room =
    let a = append_lem rest i.output_valid room in
    record {
      result = record c {
        output_buffer = a.result;
        channel = change_events enable_writing c.channel;
      };
      effects =
          high_water (readable_bytes c.output_buffer) (length rest) c ++ update enable_writing ∷ [];
      returns = rw (a.returns, i.not_writing);
      state_kept = refl;
      valid = a.valid;
      holds = a.holds ∙ ap (λ xs. xs ++ rest) i.output_empty;
      writing = (change_events_lem enable_writing c.channel).1 ∙ sym (lt→ltb 0 (length rest) p);
      input_kept = refl;
      open_kept =
          has_shutdown-append (high_water (readable_bytes c.output_buffer) (length rest) c)
            (update enable_writing ∷ [])
          ∙ rw (high_water-has_shutdown (readable_bytes c.output_buffer) (length rest) c) refl;
    }

-- `sendInLoop` on an idle connection, once the answer of `write` is known.
send_in_loop_moved :
    (write : Bytes → Transfer ℕ) (bytes : Bytes) (n : ℕ) (c : Connection)
    → IsIdle c
    → write bytes ≡ moved n
    → let remain = length bytes - n in
      send_in_loop write bytes c ≡ (
        if ltb 0 remain
        then (do
          (c', effects) ← buffer_rest (drop (length bytes - remain) bytes) c
          some (c', write_complete (remain == 0) c ++ effects))
        else some (c, write_complete (remain == 0) c))
unfolding send_in_loop after_write
send_in_loop_moved write bytes n c i w =
    let e : readable_bytes c.output_buffer ≡ 0 =
      omega (arith, length-contents i.output_valid, ap length i.output_empty) in
    rw (i.is_open, i.not_writing, eq→== _ 0 e, w)

-- When nothing is left from before and the kernel takes n bytes of a message, the output buffer
-- holds the others and the channel waits to be writable exactly if there are some: every byte is
-- written or waits to be.
pub send_in_loop_lem :
    (write : Bytes → Transfer ℕ) (bytes : Bytes) (n : ℕ) (c : Connection)
    → IsIdle c
    → write bytes ≡ moved n
    → n ≤ length bytes
    → c.output_buffer.writer_index + length bytes ≤ max_size
    → Buffered (drop n bytes) c (send_in_loop write bytes c)
send_in_loop_lem write bytes n c i w h room =
    let remain = length bytes - n in
    let size = length-drop n bytes in
    let e : length bytes - remain ≡ n = omega arith in
    rw (send_in_loop_moved write bytes n c i w) (elim (Bool-cases (ltb 0 remain)) [
      | inl t ↦
          let b =
            buffer_rest-Buffered (drop n bytes) c i (omega (arith, ltb→lt _ _ t)) (omega arith) in
          rw (t, e)
            (record {
              result = b.result;
              effects = write_complete (remain == 0) c ++ b.effects;
              returns = rw b.returns;
              state_kept = b.state_kept;
              valid = b.valid;
              holds = b.holds;
              writing = b.writing;
              input_kept = b.input_kept;
              open_kept =
                  has_shutdown-append (write_complete (remain == 0) c) b.effects
                  ∙ rw (write_complete-has_shutdown (remain == 0) c, b.open_kept) refl;
            })
      | inr t ↦
          let none_left : drop n bytes ≡ [] =
            drop-all n bytes (omega (arith, ltb-false→le _ _ t)) in
          rw (t, none_left)
            (record {
              result = c;
              effects = write_complete (remain == 0) c;
              returns = refl;
              state_kept = refl;
              valid = i.output_valid;
              holds = i.output_empty;
              writing = i.not_writing;
              input_kept = refl;
              open_kept = write_complete-has_shutdown (remain == 0) c;
            })
    ])

-- While anything is left from before, `sendInLoop` does nothing: the message is neither written
-- nor buffered.
pub send_in_loop_lost :
    (write : Bytes → Transfer ℕ) (bytes : Bytes) (c : Connection)
    → (is_writing c.channel ≡ true) ⊎ (0 < readable_bytes c.output_buffer)
    → send_in_loop write bytes c ≡ some (c, [])
unfolding send_in_loop
send_in_loop_lost write bytes c (inl w) = ground arith
send_in_loop_lost write bytes c (inr r) = ground arith
