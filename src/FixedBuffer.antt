-- ===== src/FixedBuffer.antt =====
-- FixedBuffer of LogStream.h: an array of SIZE bytes and the place in it where the next byte goes.
-- A write beyond the array is undefined in C++ and a fault here.
pub mod Fill
use conex.Prelude.{
  ℕ, ◌+◌, ◌-◌, ◌*◌, ◌%◌, ◌^◌, Bool, ◌||◌, Option, some, List, ltb, leb, if◌then◌else◌, ◌>>=◌, ◌>>◌,
  length, replicate, Bytes,
}
use conex.Memory.{write_at}

pub record FixedBuffer : Type 0 where
  pub array : List ℕ
  pub cur : ℕ

abbrev pub small_buffer : ℕ
small_buffer = 4000

abbrev pub large_buffer : ℕ
large_buffer = 4000 * 1000

-- The constructor, on whatever the array holds.
abbrev pub start : List ℕ → FixedBuffer
start array = record { array = array; cur = 0 }

abbrev pub avail : FixedBuffer → ℕ
avail b = length b.array - b.cur

-- `avail() > static_cast<int>(len)`: a size of 2^31 or more may come out negative.
abbrev pub has_room : FixedBuffer → ℕ → Bool
has_room b len = leb (2 ^ 31) (len % 2 ^ 32) || ltb (len % 2 ^ 32) (avail b)

unfoldable pub add : ℕ → FixedBuffer → FixedBuffer
add len b = record b { cur = b.cur + len }

unfoldable pub append : Bytes → FixedBuffer → Option FixedBuffer
unfolding add
append bytes b =
    if has_room b (length bytes)
    then (do
      array ← write_at b.array b.cur bytes
      some (add (length bytes) (record b { array = array })))
    else some b

unfoldable pub reset : FixedBuffer → FixedBuffer
reset b = record b { cur = 0 }

unfoldable pub bzero : FixedBuffer → FixedBuffer
bzero b = record b { array = replicate (length b.array) 0 }
