-- ===== src/Buffer.antt =====
-- Buffer.h and Buffer.cc: the byte buffer of a connection. The readable bytes are those of
-- `buffer_` between `readerIndex_` and `writerIndex_`. A pointer into the buffer is the index that
-- it points to. An operation whose `assert` fails, that throws or that touches memory outside the
-- vector is a fault, `none` (the build does not define NDEBUG).
pub mod Inv
pub mod Append
pub mod Sequence
pub mod Retrieve
pub mod Integers
pub mod Search
pub mod Fd
mod Tests
use conex.Prelude.{
  ℕ, zero, suc, ◌+◌, ◌-◌, ◌*◌, ◌/◌, ◌%◌, ◌&&◌, Option, none, some, List, [], ◌∷◌, ◌++◌, ltb, leb,
  ◌==◌, if◌then◌else◌, ◌>>=◌, ◌>>◌, assert, length, take, drop,
}
use conex.Memory.{add_size, sub_size, read_at, write_at, resize}

pub record Buffer : Type 0 where
  pub buffer : List ℕ
  pub reader_index : ℕ
  pub writer_index : ℕ

abbrev pub cheap_prepend : ℕ
cheap_prepend = 8

abbrev pub initial_size : ℕ
initial_size = 1024

-- The constructor. A vector of more than the largest size throws.
pub make : ℕ → Option Buffer
make size = do
  storage ← resize [] (add_size cheap_prepend size)
  some (record { buffer = storage; reader_index = cheap_prepend; writer_index = cheap_prepend })

abbrev pub swap : Buffer → Buffer → Buffer × Buffer
swap b rhs = (rhs, b)

abbrev pub readable_bytes : Buffer → ℕ
readable_bytes b = sub_size b.writer_index b.reader_index

abbrev pub writable_bytes : Buffer → ℕ
writable_bytes b = sub_size (length b.buffer) b.writer_index

abbrev pub prependable_bytes : Buffer → ℕ
prependable_bytes b = b.reader_index

-- `peek()` and `beginWrite()`, as indices.
abbrev pub peek : Buffer → ℕ
peek b = b.reader_index

abbrev pub begin_write : Buffer → ℕ
begin_write b = b.writer_index

abbrev pub retrieve_all : Buffer → Buffer
retrieve_all b = record b { reader_index = cheap_prepend; writer_index = cheap_prepend }

unfoldable pub retrieve : ℕ → Buffer → Option Buffer
retrieve len b = do
  assert (leb len (readable_bytes b))
  some (
      if ltb len (readable_bytes b)
      then record b { reader_index = add_size b.reader_index len }
      else retrieve_all b)

-- `end - peek()` is computed once the two asserts have passed.
unfoldable pub retrieve_until : ℕ → Buffer → Option Buffer
retrieve_until end b = do
  assert (leb (peek b) end)
  assert (leb end (begin_write b))
  retrieve (sub_size end (peek b)) b

unfoldable pub retrieve_as_string : ℕ → Buffer → Option (List ℕ × Buffer)
retrieve_as_string len b = do
  assert (leb len (readable_bytes b))
  result ← read_at b.buffer (peek b) len
  b' ← retrieve len b
  some (result, b')

unfoldable pub retrieve_all_as_string : Buffer → Option (List ℕ × Buffer)
retrieve_all_as_string b = retrieve_as_string (readable_bytes b) b

-- More storage at the end, or the readable bytes moved to the front.
unfoldable pub make_space : ℕ → Buffer → Option Buffer
make_space len b =
    if ltb (add_size (writable_bytes b) (prependable_bytes b)) (add_size len cheap_prepend)
    then (do
      storage ← resize b.buffer (add_size b.writer_index len)
      some (record b { buffer = storage }))
    else (do
      assert (ltb cheap_prepend b.reader_index)
      let readable = readable_bytes b
      bytes ← read_at b.buffer b.reader_index readable
      storage ← write_at b.buffer cheap_prepend bytes
      let b' : Buffer = record {
        buffer = storage;
        reader_index = cheap_prepend;
        writer_index = add_size cheap_prepend readable;
      }
      assert (readable == readable_bytes b')
      some b')

unfoldable pub ensure_writable_bytes : ℕ → Buffer → Option Buffer
ensure_writable_bytes len b = do
  b' ← if ltb (writable_bytes b) len then make_space len b else some b
  assert (leb len (writable_bytes b'))
  some b'

unfoldable pub has_written : ℕ → Buffer → Option Buffer
has_written len b = do
  assert (leb len (writable_bytes b))
  some (record b { writer_index = add_size b.writer_index len })

-- `append(data, len)`: the list is the `len` bytes at `data`.
unfoldable pub append : List ℕ → Buffer → Option Buffer
append bytes b = do
  b' ← ensure_writable_bytes (length bytes) b
  storage ← write_at b'.buffer (begin_write b') bytes
  has_written (length bytes) (record b' { buffer = storage })

unfoldable pub prepend : List ℕ → Buffer → Option Buffer
prepend bytes b = do
  assert (leb (length bytes) (prependable_bytes b))
  let start = sub_size b.reader_index (length bytes)
  storage ← write_at b.buffer start bytes
  some (record b { buffer = storage; reader_index = start })

-- `std::search` for the two bytes of `kCRLF`: how far the first match lies from the start.
unfoldable pub search_crlf : List ℕ → Option ℕ
search_crlf [] = none
search_crlf (c ∷ []) = none
search_crlf (c ∷ d ∷ cs) =
    let rest = search_crlf (d ∷ cs) in
    if c == b'\r' && d == b'\n' then some 0 else (do i ← rest; some (suc i))

-- `memchr`, and `std::find` where the end of the range stands for "not found".
unfoldable pub find_byte : ℕ → List ℕ → Option ℕ
find_byte x [] = none
find_byte x (c ∷ cs) =
    let rest = find_byte x cs in if c == x then some 0 else (do i ← rest; some (suc i))

-- What the search functions answer: `null`, or an index into the buffer.
abbrev pub offset_from : ℕ → Option ℕ → Option ℕ
offset_from start none = none
offset_from start (some i) = some (start + i)

-- `findCRLF(start)`. The outer option is the fault, the inner one the null pointer.
unfoldable pub find_crlf_from : ℕ → Buffer → Option (Option ℕ)
find_crlf_from start b = do
  assert (leb (peek b) start)
  assert (leb start (begin_write b))
  range ← read_at b.buffer start (begin_write b - start)
  some (offset_from start (search_crlf range))

unfoldable pub find_crlf : Buffer → Option (Option ℕ)
find_crlf b = do
  range ← read_at b.buffer (peek b) (begin_write b - peek b)
  some (offset_from (peek b) (search_crlf range))

unfoldable pub find_eol_from : ℕ → Buffer → Option (Option ℕ)
find_eol_from start b = do
  assert (leb (peek b) start)
  assert (leb start (begin_write b))
  range ← read_at b.buffer start (begin_write b - start)
  some (offset_from start (find_byte b'\n' range))

unfoldable pub find_eol : Buffer → Option (Option ℕ)
find_eol b = do
  range ← read_at b.buffer (peek b) (readable_bytes b)
  some (offset_from (peek b) (find_byte b'\n' range))

-- What `readv` and `write` answer: an error number, or how far they got.
pub data Transfer (A : Type 0) : Type 0 where
  failed : ℕ → Transfer A
  moved : A → Transfer A

abbrev pub extra_size : ℕ
extra_size = 65536

-- The room that `readFd` offers to `readv`: the writable bytes and, if they are fewer than
-- `extrabuf` holds, `extrabuf` behind them.
unfoldable pub read_room : Buffer → ℕ
read_room b =
    if ltb (writable_bytes b) extra_size then writable_bytes b + extra_size else writable_bytes b

-- `readFd`: the kernel's answer is an argument, the bytes that it has stored in the room it was
-- offered. The result is `n`, or the error number that goes to `*savedErrno`.
unfoldable pub read_fd : Transfer (List ℕ) → Buffer → Option (Transfer ℕ × Buffer)
read_fd (failed e) b = some (failed e, b)
read_fd (moved bytes) b = do
  let writable = writable_bytes b
  storage ← write_at b.buffer (begin_write b) (take writable bytes)
  let b' = record b { buffer = storage }
  b'' ←
      if leb (length bytes) writable
      then some (record b' { writer_index = add_size b'.writer_index (length bytes) })
      else append (drop writable bytes) (record b' { writer_index = length storage })
  some (moved (length bytes), b'')

-- `writeFd` hands the readable bytes to `write` and changes nothing itself.
unfoldable pub write_fd : (List ℕ → Transfer ℕ) → Buffer → Option (Transfer ℕ)
write_fd kernel b = do bytes ← read_at b.buffer (peek b) (readable_bytes b); some (kernel bytes)

-- The bytes of a word of `n` bytes, most significant first: what `htobe64` and its kin leave in
-- memory. A signed integer goes by its bit pattern.
unfoldable pub to_big_endian : ℕ → ℕ → List ℕ
to_big_endian zero x = []
to_big_endian (suc n) x = to_big_endian n (x / 256) ++ x % 256 ∷ []

unfoldable pub of_big_endian : ℕ → List ℕ → ℕ
of_big_endian acc [] = acc
of_big_endian acc (c ∷ cs) = of_big_endian (acc * 256 + c) cs

-- `appendInt64`, `appendInt32`, `appendInt16`, `appendInt8` at n = 8, 4, 2, 1; so below.
unfoldable pub append_int : ℕ → ℕ → Buffer → Option Buffer
append_int n x b = append (to_big_endian n x) b

unfoldable pub prepend_int : ℕ → ℕ → Buffer → Option Buffer
prepend_int n x b = prepend (to_big_endian n x) b

unfoldable pub peek_int : ℕ → Buffer → Option ℕ
peek_int n b = do
  assert (leb n (readable_bytes b))
  bytes ← read_at b.buffer (peek b) n
  some (of_big_endian 0 bytes)

unfoldable pub read_int : ℕ → Buffer → Option (ℕ × Buffer)
read_int n b = do result ← peek_int n b; b' ← retrieve n b; some (result, b')
