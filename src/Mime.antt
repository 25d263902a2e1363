-- ===== src/Mime.antt =====
-- Mime.h: paths, extensions and the table of content types. The working directory and the bytes of
-- the files that are read are arguments; a file that cannot be opened is `none`.
pub mod Extent
pub mod Table
mod Tests
use conex.Prelude.{
  ℕ, zero, suc, ◌/◌, Bool, true, false, ◌&&◌, ◌||◌, Option, none, some, List, [], ◌∷◌, ◌++◌, leb,
  ◌==◌, if◌then◌else◌, length, drop, Bytes, codes, bytes_eq,
}

unfoldable pub construct_path : Bytes → Bytes → Bytes
construct_path home path =
    if bytes_eq path (codes "/") then home ++ codes "/index.html" else home ++ path

-- The byte at an index that is in range.
abbrev pub byte_at : ℕ → Bytes → Option ℕ
byte_at i [] = none
byte_at zero (c ∷ cs) = some c
byte_at (suc i) (c ∷ cs) = byte_at i cs

abbrev pub is_dot : Option ℕ → Bool
is_dot none = false
is_dot (some c) = c == b'.'

-- The loop of `getExtent`, which goes down from the end: `suc i` stands for the index i, and zero
-- for -1. The result is i + 1 where the loop ends.
unfoldable pub last_dot : ℕ → Bytes → ℕ
last_dot zero path = zero
last_dot (suc i) path = elim (is_dot (byte_at i path)) [ true ↦ suc i | false ↦ last_dot i path ]

unfoldable pub get_extent : Bytes → Bytes
get_extent path = drop (last_dot (length path) path) path

-- `getline` on what is left of a file: the line and the rest, unless nothing is left.
abbrev pub get_line : Bytes → Bytes × Bytes
get_line [] = ([], [])
get_line (c ∷ cs) = let rest = get_line cs in if c == b'\n' then ([], cs) else (c ∷ rest.0, rest.1)

-- The loop `while(getline(...))` over a file, as the list of its lines; the number is fuel.
unfoldable pub file_lines : ℕ → Bytes → List Bytes
file_lines zero file = []
file_lines (suc fuel) [] = []
file_lines (suc fuel) (c ∷ cs) = (get_line (c ∷ cs)).0 ∷ file_lines fuel (get_line (c ∷ cs)).1

-- What `>>` skips before a word, and where the word ends.
abbrev pub is_blank : ℕ → Bool
is_blank c = c == b' ' || (leb 9 c && leb c 13)

-- A word that was read is put in front of the others, unless nothing was read.
unfoldable pub cons_word : Bytes → List Bytes → List Bytes
cons_word [] ws = ws
cons_word (d ∷ ds) ws = (d ∷ ds) ∷ ws

-- The words of a line, as `>>` reads them one after the other: the word that is being read, and
-- the ones behind it.
unfoldable pub split_words : Bytes → Bytes × List Bytes
split_words [] = ([], [])
split_words (c ∷ cs) =
    let rest = split_words cs in
    if is_blank c then ([], cons_word rest.0 rest.1) else (c ∷ rest.0, rest.1)

unfoldable pub words : Bytes → List Bytes
words line = cons_word (split_words line).0 (split_words line).1

abbrev pub contains : Bytes → List Bytes → Bool
contains extension [] = false
contains extension (ext ∷ exts) = bytes_eq ext extension || contains extension exts

-- `line[0]`, which is zero for an empty line.
abbrev pub is_comment : Bytes → Bool
is_comment [] = false
is_comment (c ∷ cs) = c == b'#'

-- The first word of a line, or nothing, and the words behind it.
abbrev pub head_word : List Bytes → Bytes
head_word [] = []
head_word (w ∷ ws) = w

abbrev pub tail_words : List Bytes → List Bytes
tail_words [] = []
tail_words (w ∷ ws) = ws

-- The loop over the lines of "mime.types".
unfoldable pub search_lines : Bytes → List Bytes → Bytes
search_lines extension [] = codes "text/plain"
search_lines extension (line ∷ lines) =
    let rest = search_lines extension lines in
    if is_comment line
    then rest
    else (if contains extension (tail_words (words line)) then head_word (words line) else rest)

unfoldable pub get_content_type : Option Bytes → Bytes → Bytes
get_content_type none extension = codes "text/plain"
get_content_type (some file) extension = search_lines extension (file_lines (length file) file)

unfoldable pub get_content : Option Bytes → Bytes
get_content none = []
get_content (some file) = file
