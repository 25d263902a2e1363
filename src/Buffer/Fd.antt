-- ===== src/Buffer/Fd.antt =====
-- Reading from and writing to a file descriptor.
use conex.Prelude.{
  ℕ, ◌+◌, ◌-◌, ◌≤◌, ◌<◌, ◌≡◌, ap, ◌∙◌, inl, inr, some, List, ◌++◌, append_assoc, arith, leb,
  leb-false→lt, leb→le, le→leb, lt→leb, Bool-cases, length, take, drop, length-take, length-drop,
  take-append-drop, take-all,
}
use conex.Memory.{max_size, add_size}
use conex.Memory.Laws.{
  between, read_at-some, written, write_at-some, length-written, between-written_end,
}
use conex.Buffer.{
  Buffer, Transfer, readable_bytes, writable_bytes, read_room, read_fd, write_fd, moved,
}
use conex.Buffer.Append.{append_lem}
use conex.Buffer.Inv.{IsValid, contents}

-- `readv` has filled the writable bytes with the first of what it read.
stored : List ℕ → Buffer → Buffer
stored bytes b = record b { buffer = written b.buffer b.writer_index bytes }

-- What it leaves to read when the buffer takes those bytes in.
stored_lem :
    (bytes : List ℕ) {b : Buffer} (w : ℕ)
    → IsValid b
    → b.writer_index + length bytes ≤ length b.buffer
    → w ≡ b.writer_index + length bytes
    → let b' = record (stored bytes b) { writer_index = w } in
      IsValid b' × (contents b' ≡ contents b ++ bytes)
unfolding stored
stored_lem bytes {b} w v h e =
    let same : length (written b.buffer b.writer_index bytes) ≡ length b.buffer =
      length-written b.buffer b.writer_index bytes h in
    (
      omega arith,
      ap (λ j. between b.reader_index j (written b.buffer b.writer_index bytes)) e
          ∙ between-written_end b.buffer b.reader_index b.writer_index bytes v.ordered h,
    )

-- The outcome of a read: the bytes stand behind the readable ones.
pub record Received (bytes : List ℕ) (b : Buffer) : Type 0 where
  pub result : Buffer
  pub returns : read_fd (moved bytes) b ≡ some (moved (length bytes), result)
  pub valid : IsValid result
  pub holds : contents result ≡ contents b ++ bytes

read_fd_short :
    (bytes : List ℕ) {b : Buffer} → IsValid b → length bytes ≤ writable_bytes b → Received bytes b
unfolding read_fd stored
read_fd_short bytes {b} v h =
    let w = add_size b.writer_index (length bytes) in
    let r = stored_lem bytes w v (omega arith) (omega arith) in
    record {
      result = record (stored bytes b) { writer_index = w };
      returns = rw (
        take-all (writable_bytes b) bytes h,
        write_at-some b.buffer b.writer_index bytes (omega arith),
        le→leb (length bytes) (writable_bytes b) h,
      );
      valid = r.0;
      holds = r.1;
    }

read_fd_long :
    (bytes : List ℕ) {b : Buffer}
    → IsValid b
    → writable_bytes b < length bytes
    → b.writer_index + length bytes ≤ max_size
    → Received bytes b
unfolding read_fd stored
read_fd_long bytes {b} v h room =
    let n = writable_bytes b in
    let first = take n bytes in
    let size : length first ≡ n = omega (arith, length-take n bytes) in
    let fits : b.writer_index + length first ≤ length b.buffer = omega arith in
    let same : length (written b.buffer b.writer_index first) ≡ length b.buffer =
      length-written b.buffer b.writer_index first fits in
    let r =
      stored_lem first (length (written b.buffer b.writer_index first)) v fits (omega arith) in
    let a = append_lem (drop n bytes) r.0 (omega (arith, length-drop n bytes)) in
    record {
      result = a.result;
      returns =
          rw (
            write_at-some b.buffer b.writer_index first fits,
            lt→leb (length bytes) n h,
            a.returns,
          );
      valid = a.valid;
      holds =
          a.holds
          ∙ ap (λ xs. xs ++ drop n bytes) r.1
          ∙ append_assoc (contents b) first (drop n bytes)
          ∙ ap (λ xs. contents b ++ xs) (take-append-drop n bytes);
    }

-- `readFd` takes in every byte that `readv` has stored in the room it was offered, in order behind
-- the readable ones, and returns their number. Whether they fit into the buffer or spill over into
-- `extrabuf`, the buffer stays valid.
pub read_fd_lem :
    (bytes : List ℕ) {b : Buffer}
    → IsValid b
    → length bytes ≤ read_room b
    → b.writer_index + read_room b ≤ max_size
    → Received bytes b
read_fd_lem bytes {b} v h room = elim (Bool-cases (leb (length bytes) (writable_bytes b))) [
  | inl t ↦ read_fd_short bytes v (leb→le _ _ t)
  | inr t ↦ read_fd_long bytes v (leb-false→lt _ _ t) (omega arith)
]

-- `writeFd` offers exactly the readable bytes to `write`, and returns its answer.
pub write_fd_lem :
    (kernel : List ℕ → Transfer ℕ) {b : Buffer}
    → IsValid b
    → write_fd kernel b ≡ some (kernel (contents b))
unfolding write_fd
write_fd_lem kernel {b} v =
    let e : readable_bytes b ≡ b.writer_index - b.reader_index = omega arith in
    rw (read_at-some b.buffer b.reader_index (readable_bytes b) (omega arith), e)
