-- ===== src/Mime/Table.antt =====
-- The table of content types, from its text.
use conex.Prelude.{
  ℕ, zero, suc, ◌≤◌, ◌<◌, ◌≡◌, refl, ap, false, none, some, List, [], ◌∷◌, ◌++◌, append-nil, arith,
  ◌==◌, if◌then◌else◌, length, length-append, Bytes, codes,
}
use conex.Mime.{
  get_line, file_lines, is_blank, cons_word, split_words, words, contains, is_comment, search_lines,
  get_content_type,
}

-- A line of the table: a type and its extensions.
pub record Row : Type 0 where
  pub content_type : Bytes
  pub extensions : List Bytes

-- The lines of "mime.types": words with a blank between them.
abbrev pub spaced : List Bytes → Bytes
spaced [] = []
spaced (w ∷ ws) = b' ' ∷ (w ++ spaced ws)

abbrev pub row_text : Row → Bytes
row_text row = row.content_type ++ spaced row.extensions

abbrev pub table_text : List Row → Bytes
table_text [] = []
table_text (row ∷ rows) = row_text row ++ (b'\n' ∷ table_text rows)

-- The type of the first row that lists an extension.
abbrev pub content_type_of : Bytes → List Row → Bytes
content_type_of extension [] = codes "text/plain"
content_type_of extension (row ∷ rows) =
    let later = content_type_of extension rows in
    if contains extension row.extensions then row.content_type else later

-- A word has no blank, tab or line end in it, and is not empty.
abbrev pub IsSolid : Bytes → Type 0
IsSolid [] = Unit {0}
IsSolid (c ∷ cs) = (is_blank c ≡ false) × IsSolid cs

pub record IsWord (w : Bytes) : Type 0 where
  pub solid : IsSolid w
  pub some_byte : 0 < length w

abbrev pub AreWords : List Bytes → Type 0
AreWords [] = Unit {0}
AreWords (w ∷ ws) = IsWord w × AreWords ws

-- A row whose first word does not make a comment of it.
pub record IsRow (row : Row) : Type 0 where
  pub type_word : IsWord row.content_type
  pub no_comment : is_comment row.content_type ≡ false
  pub words_ok : AreWords row.extensions

abbrev pub AreRows : List Row → Type 0
AreRows [] = Unit {0}
AreRows (row ∷ rows) = IsRow row × AreRows rows

abbrev NoNewline : Bytes → Type 0
NoNewline [] = Unit {0}
NoNewline (c ∷ cs) = ((c == b'\n') ≡ false) × NoNewline cs

NoNewline-append : (xs ys : Bytes) → NoNewline xs → NoNewline ys → NoNewline (xs ++ ys)
NoNewline-append [] ys h k = k
NoNewline-append (c ∷ cs) ys h k = (h.0, NoNewline-append cs ys h.1 k)

IsSolid-NoNewline : (w : Bytes) → IsSolid w → NoNewline w
IsSolid-NoNewline [] h = tt
IsSolid-NoNewline (c ∷ cs) h = (ground arith, IsSolid-NoNewline cs h.1)

spaced-NoNewline : (ws : List Bytes) → AreWords ws → NoNewline (spaced ws)
spaced-NoNewline [] h = tt
spaced-NoNewline (w ∷ ws) h =
    (refl, NoNewline-append w (spaced ws) (IsSolid-NoNewline w h.0.solid) (spaced-NoNewline ws h.1))

get_line_lem : (line rest : Bytes) → NoNewline line → get_line (line ++ b'\n' ∷ rest) ≡ (line, rest)
get_line_lem [] rest h = refl
get_line_lem (c ∷ cs) rest h = rw (h.0, get_line_lem cs rest h.1) refl

split_words-solid :
    (w rest : Bytes)
    → IsSolid w
    → split_words (w ++ rest) ≡ (w ++ (split_words rest).0, (split_words rest).1)
unfolding split_words
split_words-solid [] rest h = refl
split_words-solid (c ∷ cs) rest h = rw (h.0, split_words-solid cs rest h.1) refl

cons_word_lem : (w : Bytes) (ws : List Bytes) → 0 < length w → cons_word w ws ≡ w ∷ ws
unfolding cons_word
cons_word_lem [] ws h = absurd (omega arith)
cons_word_lem (d ∷ ds) ws h = refl

split_words-spaced : (ws : List Bytes) → AreWords ws → split_words (spaced ws) ≡ ([], ws)
unfolding split_words
split_words-spaced [] h = refl
split_words-spaced (w ∷ ws) h =
    rw (split_words-solid w (spaced ws) h.0.solid, split_words-spaced ws h.1, append-nil w)
      (ap (λ vs. ([], vs)) (cons_word_lem w ws h.0.some_byte))

words-row_text : (row : Row) → IsRow row → words (row_text row) ≡ row.content_type ∷ row.extensions
unfolding words
words-row_text row v =
    let w = row.content_type in
    rw
      (
        split_words-solid w (spaced row.extensions) v.type_word.solid,
        split_words-spaced row.extensions v.words_ok,
        append-nil w,
      )
      (cons_word_lem w row.extensions v.type_word.some_byte)

row_text-comment : (w rest : Bytes) → 0 < length w → is_comment (w ++ rest) ≡ is_comment w
row_text-comment [] rest h = absurd (omega arith)
row_text-comment (c ∷ cs) rest h = refl

search_lines-row :
    (extension : Bytes) (row : Row) (lines : List Bytes)
    → IsRow row
    → search_lines extension (row_text row ∷ lines) ≡ (
        if contains extension row.extensions
        then row.content_type
        else search_lines extension lines)
unfolding search_lines
search_lines-row extension row lines v =
    rw
      (
        row_text-comment row.content_type (spaced row.extensions) v.type_word.some_byte,
        v.no_comment,
        words-row_text row v,
      )
      refl

file_lines-line :
    (fuel : ℕ) (line rest : Bytes)
    → NoNewline line
    → file_lines (suc fuel) (line ++ (b'\n' ∷ rest)) ≡ line ∷ file_lines fuel rest
unfolding file_lines
file_lines-line fuel [] rest h = refl
file_lines-line fuel (c ∷ cs) rest h = rw (get_line_lem (c ∷ cs) rest h) refl

file_lines-row :
    (fuel : ℕ) (row : Row) (rest : Bytes)
    → IsRow row
    → file_lines (suc fuel) (row_text row ++ (b'\n' ∷ rest)) ≡ row_text row ∷ file_lines fuel rest
file_lines-row fuel row rest v = file_lines-line fuel (row_text row) rest (
    NoNewline-append row.content_type (spaced row.extensions)
      (IsSolid-NoNewline row.content_type v.type_word.solid)
      (spaced-NoNewline row.extensions v.words_ok))

-- Enough fuel is one round for each byte.
search_table :
    (fuel : ℕ) (extension : Bytes) (rows : List Row)
    → AreRows rows
    → length (table_text rows) ≤ fuel
    → search_lines extension (file_lines fuel (table_text rows)) ≡ content_type_of extension rows
unfolding search_lines file_lines
search_table zero extension [] v h = refl
search_table (suc fuel) extension [] v h = refl
search_table zero extension (row ∷ rows) v h =
    absurd (omega (arith, length-append (row_text row) (b'\n' ∷ table_text rows)))
search_table (suc fuel) extension (row ∷ rows) v h =
    rw
      (
        file_lines-row fuel row (table_text rows) v.0,
        search_lines-row extension row (file_lines fuel (table_text rows)) v.0,
        search_table fuel extension rows v.1
            (omega (arith, length-append (row_text row) (b'\n' ∷ table_text rows))),
      )
      refl

-- On a file that is the text of a table, `getContentType` answers the type of the first row that
-- lists the extension, and "text/plain" if none does; so it does if the file cannot be opened. The
-- words of the table are not empty and hold no blanks, and no type begins with '#'.
pub get_content_type_lem :
    (rows : List Row) (extension : Bytes)
    → AreRows rows
    → (get_content_type (some (table_text rows)) extension ≡ content_type_of extension rows)
      × (get_content_type none extension ≡ codes "text/plain")
unfolding get_content_type
get_content_type_lem rows extension v =
    (search_table (length (table_text rows)) extension rows v (omega arith), refl)
