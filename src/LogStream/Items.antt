-- ===== src/LogStream/Items.antt =====
-- What a line of the log comes to hold, and that it stays inside its array.
use conex.Prelude.{
  ℕ, suc, ◌+◌, ◌-◌, ◌^◌, ◌≤◌, ◌<◌, ◌≡◌, refl, ap, ap₂, ◌∙◌, inl, inr, Bool, true, false, none, some,
  List, [], ◌∷◌, ◌++◌, map, append_assoc, arith, ltb, leb, if◌then◌else◌, lt→ltb, leb→le, le→leb,
  Bool-cases, ◌>>=◌, length, flatten, length-append, take-all, Bytes, codes, ℤ, magnitude, pos,
  negsuc,
}
use conex.Memory.{write_at}
use conex.Decimal.{digits, decimal, length-decimal}
use conex.FixedBuffer.{FixedBuffer, avail, add}
use conex.FixedBuffer.Fill.{IsOpen, Filled, text, unfilled, filled, append_lem}
use conex.LogStream.{
  Item, format_integer, format_double, put, put_all, boolean, character, c_string, string, integer,
  double,
}
use conex.LogStream.Convert.{sign, convert_lem}

-- The text of an operand.
abbrev pub item_text : Item → Bytes
item_text (boolean v) = if v then b'1' ∷ [] else b'0' ∷ []
item_text (character c) = c ∷ []
item_text (c_string (some bytes)) = bytes
item_text (c_string none) = codes "(null)"
item_text (string bytes) = bytes
item_text (integer v) = sign v ++ decimal (magnitude v)
item_text (double digits) = digits

-- The operands that C++ can have: strings under 2 GiB, integers of at most 64 bits, and a text of
-- a floating point number that fits where `snprintf` puts it.
abbrev pub IsItem : Item → Type 0
IsItem (c_string (some bytes)) = length bytes < 2 ^ 31
IsItem (string bytes) = length bytes < 2 ^ 31
IsItem (integer v) = magnitude v < 2 ^ 64
IsItem (double digits) = length digits < 32
IsItem _ = Unit {0}

abbrev pub AreItems : List Item → Type 0
AreItems [] = Unit {0}
AreItems (item ∷ items) = IsItem item × AreItems items

-- Whether an operand gets through when that many bytes are available: strings when they fit with
-- a byte to spare, numbers when 32 are.
abbrev pub gets_through : ℕ → Item → Bool
gets_through room (integer v) = leb 32 room
gets_through room (double digits) = leb 32 room
gets_through room item = ltb (length (item_text item)) room

abbrev pub through : ℕ → Item → Bytes
through room item = if gets_through room item then item_text item else []

-- The operands that get through one after the other.
abbrev pub accepted : ℕ → List Item → Bytes
accepted room [] = []
accepted room (item ∷ items) =
    through room item ++ accepted (room - length (through room item)) items

length-item : (v : ℤ) → magnitude v < 2 ^ 64 → length (item_text (integer v)) ≤ 21
length-item (pos n) h = omega (arith, length-decimal n 20 (omega arith) (omega arith))
length-item (negsuc n) h = omega (arith, length-decimal (suc n) 20 (omega arith) (omega arith))

number_lem :
    (digits : Bytes) {b : FixedBuffer}
    → IsOpen b
    → length digits < 32
    → leb 32 (avail b) ≡ true
    → Filled b digits (do
      array ← write_at b.array b.cur (digits ++ 0 ∷ [])
      some (add (length digits) (record b { array = array })))
number_lem digits {b} o h t =
    let r = leb→le _ _ t in
    filled digits (0 ∷ []) o (omega (arith, length-append digits (0 ∷ []))) (omega arith)

format_integer_lem :
    (v : ℤ) {b : FixedBuffer}
    → IsOpen b
    → magnitude v < 2 ^ 64
    → Filled b (through (avail b) (integer v)) (format_integer v b)
unfolding format_integer
format_integer_lem v {b} o h = elim (Bool-cases (leb 32 (avail b))) [
  | inl t ↦
      rw (t, convert_lem v)
        (number_lem (sign v ++ decimal (magnitude v)) o (omega (arith, length-item v h)) t)
  | inr t ↦ rw t (unfilled o)
]

format_double_lem :
    (digits : Bytes) {b : FixedBuffer}
    → IsOpen b
    → length digits < 32
    → Filled b (through (avail b) (double digits)) (format_double digits b)
unfolding format_double
format_double_lem digits {b} o h = elim (Bool-cases (leb 32 (avail b))) [
  | inl t ↦ rw (t, take-all 31 digits (omega arith)) (number_lem digits o h t)
  | inr t ↦ rw t (unfilled o)
]

-- One operand is written whole or not at all.
put_lem :
    (item : Item) {b : FixedBuffer}
    → IsItem item
    → IsOpen b
    → Filled b (through (avail b) item) (put item b)
unfolding put
put_lem (boolean true) h o = append_lem (b'1' ∷ []) o (omega arith)
put_lem (boolean false) h o = append_lem (b'0' ∷ []) o (omega arith)
put_lem (character c) h o = append_lem (c ∷ []) o (omega arith)
put_lem (c_string (some bytes)) h o = append_lem bytes o h
put_lem (c_string none) h o = append_lem (codes "(null)") o (omega arith)
put_lem (string bytes) h o = append_lem bytes o h
put_lem (integer v) h o = format_integer_lem v o h
put_lem (double digits) h o = format_double_lem digits o h

-- A chain of `<<` never writes beyond the array: the text grows by the operands that get through,
-- each of them whole, in order, and a byte is left in the end. So it is for operands that C++ can
-- have, on a stream that has a byte left.
pub put_all_lem :
    (items : List Item) {b : FixedBuffer}
    → AreItems items
    → IsOpen b
    → Filled b (accepted (avail b) items) (put_all items b)
unfolding put_all
put_all_lem [] h o = unfilled o
put_all_lem (item ∷ items) {b} h o =
    let first = put_lem item h.0 o in
    let rest = put_all_lem items h.1 first.is_open in
    record {
      result = rest.result;
      returns = ap (λ r. r >>= put_all items) first.returns ∙ rest.returns;
      is_open = rest.is_open;
      size = rest.size ∙ first.size;
      holds =
          rest.holds
          ∙ ap₂ (λ xs room. xs ++ accepted room items) first.holds first.room
          ∙ append_assoc (text b) (through (avail b) item)
              (accepted (avail b - length (through (avail b) item)) items);
      room = omega (
        arith,
        rest.room,
        first.room,
        ap (λ room. length (accepted room items)) first.room,
        length-append (through (avail b) item)
            (accepted (avail b - length (through (avail b) item)) items),
      );
    }

abbrev pub total : List Item → ℕ
total items = length (flatten (map item_text items))

gets_through-room :
    (room : ℕ) (item : Item) → length (item_text item) + 32 ≤ room → gets_through room item ≡ true
gets_through-room room (integer v) k = le→leb 32 room (omega arith)
gets_through-room room (double digits) k = le→leb 32 room (omega arith)
gets_through-room room (boolean v) k = lt→ltb (length (item_text (boolean v))) room (omega arith)
gets_through-room room (character c) k = lt→ltb 1 room (omega arith)
gets_through-room room (c_string (some bytes)) k = lt→ltb (length bytes) room (omega arith)
gets_through-room room (c_string none) k = lt→ltb 6 room (omega arith)
gets_through-room room (string bytes) k = lt→ltb (length bytes) room (omega arith)

-- While 32 bytes more than all their texts are available, every operand gets through.
pub accepted_all :
    (room : ℕ) (items : List Item)
    → total items + 32 ≤ room
    → accepted room items ≡ flatten (map item_text items)
accepted_all room [] h = refl
accepted_all room (item ∷ items) h =
    let size = length-append (item_text item) (flatten (map item_text items)) in
    rw (gets_through-room room item (omega arith)) (
      ap (λ xs. item_text item ++ xs)
        (accepted_all (room - length (item_text item)) items (omega arith)))

-- A chain of `<<` of operands that C++ can have, with 32 bytes available beyond all their texts,
-- appends the texts to the stream, none left out.
pub put_all_whole :
    (items : List Item) {b : FixedBuffer}
    → AreItems items
    → IsOpen b
    → total items + 32 ≤ avail b
    → Filled b (flatten (map item_text items)) (put_all items b)
put_all_whole items {b} h o k = rw (accepted_all (avail b) items k) at (put_all_lem items h o)
