-- ===== src/Buffer/Retrieve.antt =====
-- What `prepend` and the retrieving operations leave to read.
use conex.Prelude.{
  ℕ, ◌+◌, ◌-◌, ◌≤◌, ◌<◌, ◌≡◌, sym, ap, ◌∙◌, inl, inr, none, some, List, [], ◌++◌, arith, ltb,
  ltb→lt, lt→ltb, ltb-false→le, le→leb, lt→leb, Bool-cases, length, take, drop, take-all, drop-all,
  drop-drop, take-take, drop-take,
}
use conex.Memory.{add_size, sub_size}
use conex.Memory.Laws.{read_at-some, written, write_at-some, length-written, between-written_front}
use conex.Buffer.{
  Buffer, readable_bytes, prependable_bytes, retrieve_all, retrieve, retrieve_until,
  retrieve_as_string, retrieve_all_as_string, prepend,
}
use conex.Buffer.Inv.{IsValid, Holds, contents, length-contents}

-- `prepend` puts bytes before the readable ones, without moving these, where they fit in the space
-- in front.
pub prepend_lem :
    (bytes : List ℕ) {b : Buffer}
    → IsValid b
    → length bytes ≤ prependable_bytes b
    → Holds (bytes ++ contents b) (prepend bytes b)
unfolding prepend
prepend_lem bytes {b} v h =
    let start = sub_size b.reader_index (length bytes) in
    let e : start + length bytes ≡ b.reader_index = omega arith in
    let b' : Buffer = record {
      buffer = written b.buffer start bytes;
      reader_index = start;
      writer_index = b.writer_index;
    } in
    let fits : start + length bytes ≤ length b.buffer = omega arith in
    let same : length b'.buffer ≡ length b.buffer = length-written b.buffer start bytes fits in
    record {
      result = b';
      returns =
          rw (le→leb (length bytes) b.reader_index h, write_at-some b.buffer start bytes fits);
      valid = omega arith;
      holds =
          between-written_front b.buffer start b.reader_index b.writer_index bytes e v.ordered
            v.inside;
    }

-- It fails where they do not fit.
pub prepend_refuses :
    (bytes : List ℕ) (b : Buffer) → prependable_bytes b < length bytes → prepend bytes b ≡ none
unfolding prepend
prepend_refuses bytes b h = rw (lt→leb (length bytes) b.reader_index h)

retrieve_some :
    (len : ℕ) {b : Buffer}
    → IsValid b
    → len < readable_bytes b
    → Holds (drop len (contents b)) (retrieve len b)
unfolding retrieve
retrieve_some len {b} v h =
    let n = add_size b.reader_index len in
    let n_eq : n ≡ b.reader_index + len = omega arith in
    let left : b.writer_index - n ≡ b.writer_index - b.reader_index - len = omega arith in
    record {
      result = record b { reader_index = n };
      returns = rw (le→leb len (readable_bytes b) (omega arith), lt→ltb len (readable_bytes b) h);
      valid = omega arith;
      holds =
          ap (λ k. take k (drop n b.buffer)) left
          ∙ ap (take (b.writer_index - b.reader_index - len))
              (ap (λ k. drop k b.buffer) n_eq ∙ sym (drop-drop len b.reader_index b.buffer))
          ∙ sym (drop-take len (b.writer_index - b.reader_index) (drop b.reader_index b.buffer));
    }

-- `retrieve(len)` of no more bytes than a valid buffer holds drops that many at the front, also by
-- way of `retrieveAll`, and keeps the buffer valid.
pub retrieve_lem :
    (len : ℕ) {b : Buffer}
    → IsValid b
    → len ≤ readable_bytes b
    → Holds (drop len (contents b)) (retrieve len b)
unfolding retrieve
retrieve_lem len {b} v h = elim (Bool-cases (ltb len (readable_bytes b))) [
  | inl t ↦ retrieve_some len v (ltb→lt _ _ t)
  | inr t ↦ record {
    result = retrieve_all b;
    returns = rw (le→leb len (readable_bytes b) h, t);
    valid = omega arith;
    holds = sym (drop-all len (contents b) (omega (arith, length-contents v, ltb-false→le _ _ t)));
  }
]

pub retrieve_refuses : (len : ℕ) (b : Buffer) → readable_bytes b < len → retrieve len b ≡ none
unfolding retrieve
retrieve_refuses len b h = rw (lt→leb len (readable_bytes b) h)

-- `retrieveUntil(end)` at a pointer into the readable bytes drops those before it.
pub retrieve_until_lem :
    (end : ℕ) {b : Buffer}
    → IsValid b
    → b.reader_index ≤ end
    → end ≤ b.writer_index
    → Holds (drop (end - b.reader_index) (contents b)) (retrieve_until end b)
unfolding retrieve_until
retrieve_until_lem end {b} v h k =
    let e : sub_size end b.reader_index ≡ end - b.reader_index = omega arith in
    rw (le→leb b.reader_index end h, le→leb end b.writer_index k, e)
      (retrieve_lem (end - b.reader_index) v (omega arith))

-- A read of the first bytes from the storage.
pub take-contents :
    (len : ℕ) {b : Buffer}
    → IsValid b
    → len ≤ readable_bytes b
    → take len (drop b.reader_index b.buffer) ≡ take len (contents b)
take-contents len {b} v h =
    sym
      (take-take len (b.writer_index - b.reader_index) (drop b.reader_index b.buffer) (omega arith))

-- `retrieveAsString(len)` returns the first `len` readable bytes and leaves the others, and fails
-- if there are fewer.
pub retrieve_as_string_lem :
    (len : ℕ) {b : Buffer}
    → IsValid b
    → len ≤ readable_bytes b
    → (b' : Buffer) × (retrieve_as_string len b ≡ some (take len (contents b), b'))
      × IsValid b'
      × (contents b' ≡ drop len (contents b))
unfolding retrieve_as_string
retrieve_as_string_lem len {b} v h =
    let r = retrieve_lem len v h in
    let e : take len (drop b.reader_index b.buffer) ≡ take len (contents b) = sym (
      take-take len (b.writer_index - b.reader_index) (drop b.reader_index b.buffer)
        (omega arith)) in
    (
      r.result,
      rw (
        le→leb len (readable_bytes b) h,
        read_at-some b.buffer b.reader_index len (omega arith),
        r.returns,
        e,
      ),
      r.valid,
      r.holds,
    )

pub retrieve_all_as_string_lem :
    {b : Buffer}
    → IsValid b
    → (b' : Buffer) × (retrieve_all_as_string b ≡ some (contents b, b'))
      × IsValid b'
      × (contents b' ≡ [])
unfolding retrieve_all_as_string
retrieve_all_as_string_lem {b} v =
    let n = readable_bytes b in
    let e : take n (contents b) ≡ contents b =
      take-all n (contents b) (omega (arith, length-contents v)) in
    let (b', s, w, k) = retrieve_as_string_lem n v (omega arith) in
    (
      b',
      s ∙ ap (λ (xs : List ℕ). some (xs, b')) e,
      w,
      k ∙ drop-all n (contents b) (omega (arith, length-contents v)),
    )
