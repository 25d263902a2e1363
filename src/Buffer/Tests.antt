-- ===== src/Buffer/Tests.antt =====
-- Runs of the buffer, and the theorems about it at concrete inputs.
use conex.Prelude.{ℕ, ◌≡◌, refl, Option, some, [], ◌∷◌, ◌++◌, arith, ◌>>=◌, replicate}
use conex.Memory.{read_at, write_at, resize}
use conex.Buffer.{
  Buffer, make, writable_bytes, prependable_bytes, retrieve, retrieve_until, retrieve_as_string,
  make_space, ensure_writable_bytes, has_written, append, prepend, search_crlf, offset_from,
  find_crlf, read_room, append_int, prepend_int, read_int,
}
use conex.Buffer.Inv.{IsValid, Holds, contents, make_lem}
use conex.Buffer.Append.{append_lem}
use conex.Buffer.Retrieve.{prepend_lem, retrieve_lem, retrieve_until_lem, retrieve_as_string_lem}
use conex.Buffer.Integers.{read_int-append_int, read_int-prepend_int}
use conex.Buffer.Search.{FirstCrlf, find_crlf_lem}
use conex.Buffer.Fd.{Received, read_fd_lem}

-- Twelve bytes of storage, "a\r\nb" from index 6 on.
abbrev small_buffer : Buffer
small_buffer = record {
  buffer = 0 ∷ 0 ∷ 0 ∷ 0 ∷ 0 ∷ 0 ∷ 97 ∷ 13 ∷ 10 ∷ 98 ∷ 0 ∷ 0 ∷ [];
  reader_index = 6;
  writer_index = 10;
}

-- Twenty bytes of storage with room at the front: the readable bytes move when room is made.
abbrev late_buffer : Buffer
late_buffer = record {
  buffer = replicate 16 0 ++ (5 ∷ 6 ∷ 0 ∷ 0 ∷ []);
  reader_index = 16;
  writer_index = 18;
}

abbrev empty_buffer : Buffer
empty_buffer = record { buffer = replicate 12 0; reader_index = 8; writer_index = 8 }

small_buffer-IsValid : IsValid small_buffer
small_buffer-IsValid = omega arith

late_buffer-IsValid : IsValid late_buffer
late_buffer-IsValid = omega arith

empty_buffer-IsValid : IsValid empty_buffer
empty_buffer-IsValid = omega arith

grows :
    append (1 ∷ 2 ∷ 3 ∷ []) small_buffer
    ≡ some (record {
      buffer = 0 ∷ 0 ∷ 0 ∷ 0 ∷ 0 ∷ 0 ∷ 97 ∷ 13 ∷ 10 ∷ 98 ∷ 1 ∷ 2 ∷ 3 ∷ [];
      reader_index = 6;
      writer_index = 13;
    })
unfolding append ensure_writable_bytes make_space has_written write_at resize
grows = refl

moves :
    append (7 ∷ 8 ∷ 9 ∷ []) late_buffer
    ≡ some (record {
      buffer = replicate 8 0 ++ (5 ∷ 6 ∷ 7 ∷ 8 ∷ 9 ∷ []) ++ (0 ∷ 0 ∷ 0 ∷ 5 ∷ 6 ∷ 0 ∷ 0 ∷ []);
      reader_index = 8;
      writer_index = 13;
    })
unfolding append ensure_writable_bytes make_space has_written write_at read_at resize
moves = refl

finds : find_crlf small_buffer ≡ some (some 7)
unfolding find_crlf search_crlf read_at
finds = refl

append_lem_example :
    Holds (97 ∷ 13 ∷ 10 ∷ 98 ∷ 1 ∷ 2 ∷ 3 ∷ []) (append (1 ∷ 2 ∷ 3 ∷ []) small_buffer)
append_lem_example =
    append_lem (1 ∷ 2 ∷ 3 ∷ []) {b = small_buffer} small_buffer-IsValid (omega arith)

prepend_here : Holds (4 ∷ 5 ∷ 6 ∷ []) (prepend (4 ∷ []) late_buffer)
prepend_here = prepend_lem (4 ∷ []) {b = late_buffer} late_buffer-IsValid (omega arith)

retrieve_lem_example : Holds (10 ∷ 98 ∷ []) (retrieve 2 small_buffer)
retrieve_lem_example = retrieve_lem 2 {b = small_buffer} small_buffer-IsValid (omega arith)

retrieve_as_string_here :
    (b' : Buffer) × (retrieve_as_string 3 small_buffer ≡ some (97 ∷ 13 ∷ 10 ∷ [], b'))
    × IsValid b'
    × (contents b' ≡ 98 ∷ [])
retrieve_as_string_here =
    retrieve_as_string_lem 3 {b = small_buffer} small_buffer-IsValid (omega arith)

retrieve_until_here : Holds (98 ∷ []) (retrieve_until 9 small_buffer)
retrieve_until_here =
    retrieve_until_lem 9 {b = small_buffer} small_buffer-IsValid (omega arith) (omega arith)

read_int-append_int_here :
    (b' : Buffer) × ((do q ← append_int 4 3735928559 empty_buffer; read_int 4 q)
      ≡ some (3735928559, b'))
    × IsValid b'
    × (contents b' ≡ [])
read_int-append_int_here =
    read_int-append_int 4 3735928559 {b = empty_buffer} empty_buffer-IsValid refl (omega arith)
      (omega arith)

read_int-prepend_int_example :
    (b' : Buffer) × ((do q ← prepend_int 4 258 late_buffer; read_int 4 q) ≡ some (258, b'))
    × IsValid b'
    × (contents b' ≡ 5 ∷ 6 ∷ [])
read_int-prepend_int_example =
    read_int-prepend_int 4 258 {b = late_buffer} late_buffer-IsValid (omega arith) (omega arith)

find_crlf_lem_example :
    (r : Option ℕ) × (find_crlf small_buffer ≡ some (offset_from 6 r))
    × FirstCrlf (97 ∷ 13 ∷ 10 ∷ 98 ∷ []) r
find_crlf_lem_example = find_crlf_lem {b = small_buffer} small_buffer-IsValid

read_fd_lem_example : Received (1 ∷ 2 ∷ 3 ∷ []) small_buffer
unfolding read_room
read_fd_lem_example =
    read_fd_lem (1 ∷ 2 ∷ 3 ∷ []) {b = small_buffer} small_buffer-IsValid (omega arith) (omega arith)

make_here :
    (b : Buffer) × (make 1024 ≡ some b)
    × IsValid b
    × (contents b ≡ [])
    × (writable_bytes b ≡ 1024)
    × (prependable_bytes b ≡ 8)
make_here = make_lem 1024 (omega arith)
