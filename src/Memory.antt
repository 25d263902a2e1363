-- ===== src/Memory.antt =====
-- The storage of a `std::vector<char>` as a list of bytes, and what the sources do with it:
-- copies out of it and into it, `resize`, and `size_t` arithmetic. A byte is a number. An access
-- out of range is undefined in C++ and a fault here.
pub mod Laws
use conex.Prelude.{
  ℕ, ◌+◌, ◌-◌, ◌%◌, ◌^◌, ◌≤◌, Bool, List, [], ◌∷◌, ◌++◌, Option, none, some, ltb, leb,
  if◌then◌else◌, length, take, drop, replicate,
}

-- The range of `size_t`, and the largest size of a vector of bytes (PTRDIFF_MAX).
abbrev pub size_mod : ℕ
size_mod = 2 ^ 64

abbrev pub max_size : ℕ
max_size = 2 ^ 63 - 1

-- `a + b` and `a - b` on `size_t`.
abbrev pub add_size : ℕ → ℕ → ℕ
add_size a b = (a + b) % size_mod

abbrev pub sub_size : ℕ → ℕ → ℕ
sub_size a b = (a + size_mod - b) % size_mod

-- The bytes [i, i + n).
unfoldable pub read_at : List ℕ → ℕ → ℕ → Option (List ℕ)
read_at xs i n = if leb (i + n) (length xs) then some (take n (drop i xs)) else none

-- `std::copy` of `data` to position `i`.
unfoldable pub write_at : List ℕ → ℕ → List ℕ → Option (List ℕ)
write_at xs i bytes =
    if leb (i + length bytes) (length xs)
    then some (take i xs ++ bytes ++ drop (i + length bytes) xs)
    else none

-- `resize(n)` fills with zeros, and throws `length_error` beyond the largest size.
unfoldable pub resize : List ℕ → ℕ → Option (List ℕ)
resize xs n = if leb n max_size then some (take n xs ++ replicate (n - length xs) 0) else none
