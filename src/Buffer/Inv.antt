-- ===== src/Buffer/Inv.antt =====
-- The representation invariant of the buffer: the indices in order and inside the storage. Under
-- it the sizes are what they seem, and the readable bytes are a part of the storage.
use conex.Prelude.{
  ℕ, ◌+◌, ◌-◌, ◌≤◌, ◌≡◌, refl, ◌∙◌, Option, some, List, [], arith, length, replicate,
  length-replicate,
}
use conex.Memory.{max_size, add_size}
use conex.Memory.Laws.{between, length-between, resize-some}
use conex.Buffer.{Buffer, cheap_prepend, make, readable_bytes, writable_bytes, prependable_bytes}

pub record IsValid (b : Buffer) : Type 0 where
  pub ordered : b.reader_index ≤ b.writer_index
  pub inside : b.writer_index ≤ length b.buffer
  pub headroom : cheap_prepend ≤ length b.buffer
  pub small : length b.buffer ≤ max_size

-- The readable bytes.
abbrev pub contents : Buffer → List ℕ
contents b = between b.reader_index b.writer_index b.buffer

-- No `size_t` subtraction of the three sizes wraps, and they add up to the storage.
pub sizes_lem :
    {b : Buffer}
    → IsValid b
    → (readable_bytes b ≡ b.writer_index - b.reader_index)
      × (writable_bytes b ≡ length b.buffer - b.writer_index)
      × (prependable_bytes b + readable_bytes b + writable_bytes b ≡ length b.buffer)
sizes_lem v = omega arith

pub length-contents : {b : Buffer} → IsValid b → length (contents b) ≡ readable_bytes b
length-contents {b} v =
    omega (arith, length-between b.reader_index b.writer_index b.buffer v.inside)

-- The outcome of an operation that has to succeed: a valid buffer with these readable bytes.
pub record Holds (xs : List ℕ) (r : Option Buffer) : Type 0 where
  pub result : Buffer
  pub returns : r ≡ some result
  pub valid : IsValid result
  pub holds : contents result ≡ xs

pub make_lem :
    (size : ℕ)
    → size + 8 ≤ max_size
    → (b : Buffer) × (make size ≡ some b)
      × IsValid b
      × (contents b ≡ [])
      × (writable_bytes b ≡ size)
      × (prependable_bytes b ≡ 8)
unfolding make
make_lem size h =
    let n = add_size 8 size in
    let e : n - 0 ≡ size + 8 = omega arith in
    let b : Buffer = record {
      buffer = replicate (n - 0) 0;
      reader_index = cheap_prepend;
      writer_index = cheap_prepend;
    } in
    let total : length b.buffer ≡ size + 8 = length-replicate (n - 0) 0 ∙ e in
    (
      b,
      rw (resize-some [] n (omega arith) (omega arith)),
      omega arith,
      refl,
      omega arith,
      omega arith,
    )
