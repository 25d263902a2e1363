-- ===== src/Buffer/Append.antt =====
-- How the buffer makes room, and what `append` leaves to read.
use conex.Prelude.{
  ℕ, zero, ◌+◌, ◌-◌, ◌≤◌, ◌<◌, ◌≡◌, refl, ap, ◌∙◌, inl, inr, true, false, Option, some, List, ◌++◌,
  arith, ltb, ltb→lt, lt→ltb, ltb-false→le, eq→==, le→leb, Bool-cases, ◌>>=◌, length, take, drop,
  replicate, length-append, length-take, length-drop, length-replicate,
}
use conex.Memory.{max_size, add_size, write_at}
use conex.Memory.Laws.{
  between, read_at-some, written, write_at-some, length-written, between-written_end,
  between-written_self, resize-some, between-append,
}
use conex.Buffer.{
  Buffer, cheap_prepend, readable_bytes, writable_bytes, prependable_bytes, make_space,
  ensure_writable_bytes, has_written, append,
}
use conex.Buffer.Inv.{IsValid, Holds, contents}

-- Room for `len` more bytes behind the readable ones, which are kept.
record Roomy (len : ℕ) (b : Buffer) (r : Option Buffer) : Type 0 where
  result : Buffer
  returns : r ≡ some result
  valid : IsValid result
  holds : contents result ≡ contents b
  room : result.writer_index + len ≤ length result.buffer
  bound : result.writer_index ≤ b.writer_index

make_space-grow :
    (len : ℕ) {b : Buffer}
    → IsValid b
    → b.writer_index + len ≤ max_size
    → length b.buffer < b.writer_index + len
    → ltb (add_size (writable_bytes b) (prependable_bytes b)) (add_size len cheap_prepend) ≡ true
    → Roomy len b (make_space len b)
unfolding make_space
make_space-grow len {b} v h short t =
    let n = add_size b.writer_index len in
    let n_eq : n ≡ b.writer_index + len = omega arith in
    let zeros : List ℕ = replicate (n - length b.buffer) 0 in
    let size : length (b.buffer ++ zeros) ≡ b.writer_index + len =
      omega (arith, length-append b.buffer zeros, length-replicate (n - length b.buffer) zero) in
    record {
      result = record b { buffer = b.buffer ++ zeros };
      returns = rw (t, resize-some b.buffer n (omega arith) (omega arith));
      valid = omega arith;
      holds = between-append b.buffer zeros b.reader_index b.writer_index v.ordered v.inside;
      room = omega arith;
      bound = omega arith;
    }

make_space-move :
    (len : ℕ) {b : Buffer}
    → IsValid b
    → b.writer_index + len ≤ max_size
    → length b.buffer < b.writer_index + len
    → ltb (add_size (writable_bytes b) (prependable_bytes b)) (add_size len cheap_prepend) ≡ false
    → Roomy len b (make_space len b)
unfolding make_space
make_space-move len {b} v h short t =
    let free : 8 < b.reader_index = omega (arith, ltb-false→le _ _ t) in
    let n = readable_bytes b in
    let n_eq : n ≡ b.writer_index - b.reader_index = omega arith in
    let bytes = take n (drop b.reader_index b.buffer) in
    let size : length bytes ≡ n =
      omega (
        arith,
        length-take n (drop b.reader_index b.buffer),
        length-drop b.reader_index b.buffer,
      ) in
    let end : add_size cheap_prepend n ≡ 8 + length bytes = omega arith in
    let b' : Buffer = record {
      buffer = written b.buffer 8 bytes;
      reader_index = cheap_prepend;
      writer_index = add_size cheap_prepend n;
    } in
    let same : length b'.buffer ≡ length b.buffer = length-written b.buffer 8 bytes (omega arith) in
    record {
      result = b';
      returns = rw (
        t,
        lt→ltb 8 b.reader_index free,
        read_at-some b.buffer b.reader_index n (omega arith),
        write_at-some b.buffer 8 bytes (omega arith),
        eq→== n (readable_bytes b') (omega arith),
      );
      valid = omega arith;
      holds =
          ap (λ j. between 8 j b'.buffer) end
          ∙ between-written_self b.buffer 8 bytes (omega arith)
          ∙ ap (λ k. take k (drop b.reader_index b.buffer)) n_eq;
      room = omega (arith, ltb-false→le _ _ t);
      bound = omega arith;
    }

make_space-Roomy :
    (len : ℕ) {b : Buffer}
    → IsValid b
    → b.writer_index + len ≤ max_size
    → length b.buffer < b.writer_index + len
    → Roomy len b (make_space len b)
make_space-Roomy len {b} v h short =
    elim (Bool-cases
      (ltb (add_size (writable_bytes b) (prependable_bytes b)) (add_size len cheap_prepend))) [
        | inl t ↦ make_space-grow len v h short t
        | inr t ↦ make_space-move len v h short t
      ]

ensure_writable_bytes-Roomy :
    (len : ℕ) {b : Buffer}
    → IsValid b
    → b.writer_index + len ≤ max_size
    → Roomy len b (ensure_writable_bytes len b)
unfolding ensure_writable_bytes
ensure_writable_bytes-Roomy len {b} v h = elim (Bool-cases (ltb (writable_bytes b) len)) [
  | inl t ↦
      let m = make_space-Roomy len v h (omega (arith, ltb→lt _ _ t)) in
      let r = m.result in
      let w = m.valid in
      record {
        result = r;
        returns = rw (t, m.returns, le→leb len (writable_bytes r) (omega (arith, m.room, w.small)));
        valid = w;
        holds = m.holds;
        room = m.room;
        bound = m.bound;
      }
  | inr t ↦ record {
    result = b;
    returns = rw (t, le→leb len (writable_bytes b) (ltb-false→le _ _ t));
    valid = v;
    holds = refl;
    room = omega (arith, ltb-false→le _ _ t);
    bound = omega arith;
  }
]

-- The outcome of appending, with a bound on the index that it leaves.
pub record Grows (bytes : List ℕ) (b : Buffer) (r : Option Buffer) : Type 0 where
  pub result : Buffer
  pub returns : r ≡ some result
  pub valid : IsValid result
  pub holds : contents result ≡ contents b ++ bytes
  pub bound : result.writer_index ≤ b.writer_index + length bytes

-- What `append` does once there is room.
append_roomy :
    (bytes : List ℕ) {b : Buffer}
    → IsValid b
    → b.writer_index + length bytes ≤ length b.buffer
    → Grows bytes b (do
      storage ← write_at b.buffer b.writer_index bytes
      has_written (length bytes) (record b { buffer = storage }))
unfolding has_written
append_roomy bytes {b} v h =
    let b' : Buffer = record {
      buffer = written b.buffer b.writer_index bytes;
      reader_index = b.reader_index;
      writer_index = add_size b.writer_index (length bytes);
    } in
    let same : length b'.buffer ≡ length b.buffer =
      length-written b.buffer b.writer_index bytes h in
    let end : b'.writer_index ≡ b.writer_index + length bytes = omega arith in
    record {
      result = b';
      returns = rw (
        write_at-some b.buffer b.writer_index bytes h,
        le→leb (length bytes) (writable_bytes (record b { buffer = b'.buffer })) (omega arith),
      );
      valid = omega arith;
      holds =
          ap (λ j. between b.reader_index j b'.buffer) end
          ∙ between-written_end b.buffer b.reader_index b.writer_index bytes v.ordered h;
      bound = omega arith;
    }

pub append-Grows :
    (bytes : List ℕ) {b : Buffer}
    → IsValid b
    → b.writer_index + length bytes ≤ max_size
    → Grows bytes b (append bytes b)
unfolding append
append-Grows bytes {b} v h =
    let e = ensure_writable_bytes-Roomy (length bytes) v h in
    let a = append_roomy bytes e.valid e.room in
    record {
      result = a.result;
      returns = rw e.returns a.returns;
      valid = a.valid;
      holds = a.holds ∙ ap (λ xs. xs ++ bytes) e.holds;
      bound = omega (arith, a.bound, e.bound);
    }

-- `append` always succeeds on a valid buffer, unless the vector would have to grow beyond its
-- largest size: the bytes stand behind the readable ones, whether the storage had room, was
-- extended, or had its readable bytes moved to the front.
pub append_lem :
    (bytes : List ℕ) {b : Buffer}
    → IsValid b
    → b.writer_index + length bytes ≤ max_size
    → Holds (contents b ++ bytes) (append bytes b)
append_lem bytes v h =
    let a = append-Grows bytes v h in
    record { result = a.result; returns = a.returns; valid = a.valid; holds = a.holds }
