-- ===== src/FixedBuffer/Fill.antt =====
-- What a fixed buffer holds, and that nothing is written beyond its array.
use conex.Prelude.{
  ℕ, ◌+◌, ◌-◌, ◌%◌, ◌^◌, ◌≤◌, ◌<◌, ◌≡◌, refl, sym, inl, inr, false, Option, some, [], ◌++◌,
  append-nil, append_assoc, arith, ltb, leb, if◌then◌else◌, ltb→lt, lt→leb, Bool-cases, ◌>>=◌,
  length, take, drop, length-append, length-take, take-all, take-append_le, Bytes,
}
use conex.Memory.{write_at}
use conex.Memory.Laws.{written, write_at-some, length-written}
use conex.FixedBuffer.{FixedBuffer, avail, add, append}

-- There is room for one byte more, also after every operation.
pub record IsOpen (b : FixedBuffer) : Type 0 where
  pub inside : b.cur < length b.array

-- What has been written.
abbrev pub text : FixedBuffer → Bytes
text b = take b.cur b.array

-- The outcome of a write that keeps the array: what the buffer holds afterwards.
pub record Filled (b : FixedBuffer) (more : Bytes) (r : Option FixedBuffer) : Type 0 where
  pub result : FixedBuffer
  pub returns : r ≡ some result
  pub is_open : IsOpen result
  pub size : length result.array ≡ length b.array
  pub holds : text result ≡ text b ++ more
  pub room : avail result ≡ avail b - length more

-- Nothing is written.
pub unfilled : {b : FixedBuffer} → IsOpen b → Filled b [] (some b)
unfilled {b} o = record {
  result = b;
  returns = refl;
  is_open = o;
  size = refl;
  holds = sym (append-nil (text b));
  room = omega arith;
}

take-written :
    (xs kept past : Bytes) (i : ℕ)
    → i ≤ length xs
    → take (i + length kept) (written xs i (kept ++ past)) ≡ take i xs ++ kept
take-written xs kept past i h =
    let rest = drop (i + length (kept ++ past)) xs in
    let size : length (take i xs ++ kept) ≡ i + length kept =
      omega (arith, length-append (take i xs) kept, length-take i xs) in
    rw
      (
        sym (append_assoc (take i xs) kept past),
        take-append_le (i + length kept) (take i xs ++ kept ++ past) rest
            (omega (arith, length-append (take i xs ++ kept) past)),
        take-append_le (i + length kept) (take i xs ++ kept) past (omega arith),
      )
      (take-all (i + length kept) (take i xs ++ kept) (omega arith))

-- Bytes written to the place `cur`, of which the first are kept.
pub filled :
    (kept past : Bytes) {b : FixedBuffer}
    → IsOpen b
    → b.cur + length (kept ++ past) ≤ length b.array
    → b.cur + length kept < length b.array
    → Filled b kept (do
      array ← write_at b.array b.cur (kept ++ past)
      some (add (length kept) (record b { array = array })))
unfolding add
filled kept past {b} o h k =
    let same = length-written b.array b.cur (kept ++ past) h in
    record {
      result = record b { array = written b.array b.cur (kept ++ past); cur = b.cur + length kept };
      returns = rw (write_at-some b.array b.cur (kept ++ past) h) refl;
      is_open = omega arith;
      size = same;
      holds = take-written b.array kept past b.cur (omega arith);
      room = omega arith;
    }

-- What `append` lets through.
abbrev pub admitted : FixedBuffer → Bytes → Bytes
admitted b bytes = if ltb (length bytes) (avail b) then bytes else []

-- `append` of less than 2 GiB writes all the bytes when more than that is available, and otherwise
-- nothing; it stays inside the array.
pub append_lem :
    (bytes : Bytes) {b : FixedBuffer}
    → IsOpen b
    → length bytes < 2 ^ 31
    → Filled b (admitted b bytes) (append bytes b)
unfolding append
append_lem bytes {b} o h =
    let small : leb (2 ^ 31) (length bytes % 2 ^ 32) ≡ false = lt→leb _ _ (omega arith) in
    let same : length bytes % 2 ^ 32 ≡ length bytes = omega arith in
    elim (Bool-cases (ltb (length bytes) (avail b))) [
      | inl t ↦
          let k = ltb→lt _ _ t in
          let f = filled bytes [] o (omega (arith, length-append bytes [])) (omega arith) in
          rw (small, same, t) (rw (append-nil bytes) at f)
      | inr t ↦ rw (small, same, t) (unfilled o)
    ]
