-- ===== src/Logger/Line.antt =====
-- The text of a line.
use conex.Prelude.{
  ◌+◌, ◌^◌, ◌≤◌, ◌<◌, ◌≡◌, refl, ap, ◌∙◌, inl, inr, some, List, [], ◌∷◌, ◌++◌, map, arith,
  Option-cases, ◌>>=◌, length, flatten, flatten-append, length-take, Bytes, codes, ℤ, magnitude,
}
use conex.FixedBuffer.{FixedBuffer, small_buffer, start, avail}
use conex.FixedBuffer.Fill.{text}
use conex.LogStream.{Item, put, put_all, c_string, string, integer}
use conex.LogStream.Items.{item_text, AreItems, accepted, put_all_lem, total, accepted_all}
use conex.Logger.{Statement, format_time, make_logger, dashes, finish, log_line}

-- The operands of a line, in order.
abbrev pub place_items : Bytes → ℤ → List Item
place_items file line =
    c_string (some dashes)
    ∷ string file
    ∷ c_string (some (codes ":"))
    ∷ integer line
    ∷ c_string (some (codes "\n"))
    ∷ []

abbrev pub line_items : Statement → List Item
line_items s = c_string (some s.time) ∷ (s.items ++ place_items s.file s.line)

-- A statement that C++ can have.
pub record IsStatement (s : Statement) : Type 0 where
  pub size_is : length s.array ≡ small_buffer
  pub time_short : length s.time < 2 ^ 31
  pub file_short : length s.file < 2 ^ 31
  pub line_is_int : magnitude s.line < 2 ^ 64
  pub items_are : AreItems s.items

put_all-append :
    (xs ys : List Item) (b : FixedBuffer) → put_all (xs ++ ys) b ≡ (put_all xs b >>= put_all ys)
unfolding put_all
put_all-append [] ys b = refl
put_all-append (x ∷ xs) ys b = elim (Option-cases (put x b)) [
  | inl e ↦ rw e refl
  | inr (b', e) ↦ rw e (put_all-append xs ys b')
]

AreItems-append : (xs ys : List Item) → AreItems xs → AreItems ys → AreItems (xs ++ ys)
AreItems-append [] ys h k = k
AreItems-append (x ∷ xs) ys h k = (h.0, AreItems-append xs ys h.1 k)

log_line-put_all :
    (s : Statement) → log_line s ≡ (do b ← put_all (line_items s) (start s.array); some (text b))
unfolding log_line make_logger format_time finish put_all
log_line-put_all s = elim (Option-cases (put (c_string (some s.time)) (start s.array))) [
  | inl e ↦ rw e refl
  | inr (b, e) ↦
      rw (e, put_all-append s.items (place_items s.file s.line) b)
        (elim (Option-cases (put_all s.items b)) [ inl f ↦ rw f refl | inr (b', f) ↦ rw f refl ])
]

line_items-AreItems : (s : Statement) → IsStatement s → AreItems (line_items s)
line_items-AreItems s v = (
  v.time_short,
  AreItems-append s.items (place_items s.file s.line) v.items_are
      (omega (arith, v.file_short, v.line_is_int)),
)

item_texts-append :
    (xs ys : List Item) → map item_text (xs ++ ys) ≡ map item_text xs ++ map item_text ys
item_texts-append [] ys = refl
item_texts-append (x ∷ xs) ys = ap (λ zs. item_text x ∷ zs) (item_texts-append xs ys)

-- A line is the texts of the time, the operands, the file and the line number that get through, each
-- whole, and it is shorter than the stream's array.
pub log_line_lem :
    (s : Statement)
    → IsStatement s
    → (log_line s ≡ some (accepted small_buffer (line_items s)))
      × (length (accepted small_buffer (line_items s)) < small_buffer)
log_line_lem s v =
    let f =
      put_all_lem (line_items s) {b = start s.array} (line_items-AreItems s v)
        (omega (arith, v.size_is)) in
    let room : avail (start s.array) ≡ small_buffer = omega (arith, v.size_is) in
    let holds : text f.result ≡ accepted small_buffer (line_items s) =
      f.holds ∙ ap (λ n. accepted n (line_items s)) room in
    (
      log_line-put_all s ∙ ap (λ r. r >>= λ b. some (text b)) f.returns ∙ ap some holds,
      omega (
        arith,
        f.is_open.inside,
        f.size,
        v.size_is,
        ap length holds,
        length-take f.result.cur f.result.array,
      ),
    )

-- When they leave 32 bytes of the array, all get through: the line is the time, the operands, `--`,
-- the file, a colon, the line number and the end of the line.
pub whole_line_lem :
    (s : Statement)
    → IsStatement s
    → total (line_items s) + 32 ≤ small_buffer
    → log_line s
      ≡ some (
          s.time
          ++ (flatten (map item_text s.items)
              ++ (dashes ++ (s.file ++ (codes ":" ++ (item_text (integer s.line) ++ codes "\n"))))))
whole_line_lem s v h =
    let all = accepted_all small_buffer (line_items s) h in
    (log_line_lem s v).0
    ∙ ap some (
        all
        ∙ ap (λ xs. s.time ++ xs)
            (ap flatten (item_texts-append s.items (place_items s.file s.line))
              ∙ flatten-append (map item_text s.items) (map item_text (place_items s.file s.line))))
