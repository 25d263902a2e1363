-- ===== src/LogStream.antt =====
-- LogStream.h and LogStream.cc: a line of the log under construction. `snprintf` on a floating
-- point number is the text that it would print.
pub mod Convert
pub mod Items
mod Tests
use conex.Prelude.{
  ℕ, zero, suc, ◌+◌, ◌-◌, Bool, true, false, Option, none, some, List, [], ◌∷◌, ◌++◌, reverse, ltb,
  leb, ◌==◌, if◌then◌else◌, ◌>>=◌, ◌>>◌, length, take, drop, Bytes, codes, ℤ, magnitude,
  is_negative, quotient, remainder, pos, negsuc,
}
use conex.Memory.{write_at}
use conex.FixedBuffer.{FixedBuffer, avail, add, append, reset}

abbrev max_numeric_size : ℕ
max_numeric_size = 32

-- `digits`, and the character at an offset from `zero`, which points to the middle of it.
abbrev digit_table : Bytes
digit_table = codes "9876543210123456789"

unfoldable pub zero_at : ℤ → Option ℕ
zero_at (pos n) = elim (drop (9 + n) digit_table) [ [] ↦ none | c ∷ cs ↦ some c ]
zero_at (negsuc n) =
    if ltb n 9 then elim (drop (9 - suc n) digit_table) [ [] ↦ none | c ∷ cs ↦ some c ] else none

-- The loop of `convert`, on fuel: the digits, the last one first.
unfoldable pub convert_loop : ℕ → ℤ → Option Bytes
convert_loop zero i = none
convert_loop (suc fuel) i = do
  c ← zero_at (remainder i 10)
  elim (magnitude (quotient i 10) == 0) [
    | true ↦ some (c ∷ [])
    | false ↦ do rest ← convert_loop fuel (quotient i 10); some (c ∷ rest)
  ]

unfoldable pub convert : ℤ → Option Bytes
convert value = do
  digits ← convert_loop (suc (magnitude value)) value
  some (reverse (digits ++ (if is_negative value then b'-' ∷ [] else [])))

-- `formatInteger`, the end of the string that `convert` writes included.
unfoldable pub format_integer : ℤ → FixedBuffer → Option FixedBuffer
format_integer v b =
    if leb max_numeric_size (avail b)
    then (do
      text ← convert v
      array ← write_at b.array b.cur (text ++ 0 ∷ [])
      some (add (length text) (record b { array = array })))
    else some b

-- `operator<<(double)`: `snprintf` writes at most 31 bytes and a zero, and returns the length of
-- the whole text.
unfoldable pub format_double : Bytes → FixedBuffer → Option FixedBuffer
format_double text b =
    if leb max_numeric_size (avail b)
    then (do
      array ← write_at b.array b.cur (take (max_numeric_size - 1) text ++ 0 ∷ [])
      some (add (length text) (record b { array = array })))
    else some b

-- An operand of `<<`; every integer type comes down to `formatInteger`, and `float` to `double`.
pub data Item : Type 0 where
  boolean : Bool → Item
  character : ℕ → Item
  c_string : Option Bytes → Item
  string : Bytes → Item
  integer : ℤ → Item
  double : Bytes → Item

-- `operator<<`. Those for `unsigned short` and for pointers have no body in the source.
unfoldable pub put : Item → FixedBuffer → Option FixedBuffer
put (boolean v) b = append (if v then b'1' ∷ [] else b'0' ∷ []) b
put (character c) b = append (c ∷ []) b
put (c_string (some bytes)) b = append bytes b
put (c_string none) b = append (codes "(null)") b
put (string bytes) b = append bytes b
put (integer v) b = format_integer v b
put (double text) b = format_double text b

unfoldable pub put_all : List Item → FixedBuffer → Option FixedBuffer
put_all [] b = some b
put_all (item ∷ items) b = do b' ← put item b; put_all items b'

-- `append(data, len)`.
unfoldable pub append_data : Bytes → FixedBuffer → Option FixedBuffer
append_data bytes b = append bytes b

unfoldable pub reset_buffer : FixedBuffer → FixedBuffer
reset_buffer b = reset b
