-- ===== src/Buffer/Search.antt =====
-- The search functions of Buffer.h: they find the first match among the readable bytes.
use conex.Prelude.{
  ℕ, suc, ◌+◌, ◌-◌, ◌≤◌, ◌≡◌, refl, ap, ap₂, ◌∙◌, ◌≢◌, inl, inr, ◌&&◌, Option, none, some, List, [],
  ◌∷◌, ◌++◌, arith, ◌==◌, le→leb, Bool-cases, ◌>>=◌, length, take, drop, drop-drop, drop-take,
}
use conex.Memory.Laws.{between, read_at-some}
use conex.Buffer.{
  Buffer, readable_bytes, peek, search_crlf, find_byte, offset_from, find_crlf_from, find_crlf,
  find_eol,
}
use conex.Buffer.Inv.{IsValid, contents}

-- No carriage return is followed by a line feed.
abbrev pub NoCrlf : List ℕ → Type 0
NoCrlf [] = Unit {0}
NoCrlf (c ∷ []) = Unit {0}
NoCrlf (c ∷ d ∷ cs) = ¬ ((c ≡ b'\r') × (d ≡ b'\n')) × NoCrlf (d ∷ cs)

-- What a search for the two bytes may answer: there are none, or the first ones are at `i`.
abbrev pub FirstCrlf : List ℕ → Option ℕ → Type 0
FirstCrlf xs none = NoCrlf xs
FirstCrlf xs (some i) = (take 2 (drop i xs) ≡ b'\r' ∷ b'\n' ∷ []) × NoCrlf (take (suc i) xs)

FirstCrlf-cons :
    (c d : ℕ) (cs : List ℕ) (r : Option ℕ)
    → ¬ ((c ≡ b'\r') × (d ≡ b'\n'))
    → FirstCrlf (d ∷ cs) r
    → FirstCrlf (c ∷ d ∷ cs) (do i ← r; some (suc i))
FirstCrlf-cons c d cs none h f = (h, f)
FirstCrlf-cons c d cs (some i) h f = (f.0, (h, f.1))

pub search_crlf-FirstCrlf : (xs : List ℕ) → FirstCrlf xs (search_crlf xs)
unfolding search_crlf
search_crlf-FirstCrlf [] = tt
search_crlf-FirstCrlf (c ∷ []) = tt
search_crlf-FirstCrlf (c ∷ d ∷ cs) = elim (Bool-cases (c == b'\r' && d == b'\n')) [
  | inl e ↦ rw e (ground arith, tt)
  | inr e ↦ rw e (
      FirstCrlf-cons c d cs (search_crlf (d ∷ cs)) (λ p. ground arith)
        (search_crlf-FirstCrlf (d ∷ cs)))
]

-- Bytes that are not `x`.
abbrev pub Lacks : ℕ → List ℕ → Type 0
Lacks x [] = Unit {0}
Lacks x (c ∷ cs) = (c ≢ x) × Lacks x cs

abbrev pub FirstByte : ℕ → List ℕ → Option ℕ → Type 0
FirstByte x xs none = Lacks x xs
FirstByte x xs (some i) = (take 1 (drop i xs) ≡ x ∷ []) × Lacks x (take i xs)

FirstByte-cons :
    (x c : ℕ) (cs : List ℕ) (r : Option ℕ)
    → c ≢ x
    → FirstByte x cs r
    → FirstByte x (c ∷ cs) (do i ← r; some (suc i))
FirstByte-cons x c cs none h f = (h, f)
FirstByte-cons x c cs (some i) h f = (f.0, (h, f.1))

pub find_byte-FirstByte : (x : ℕ) (xs : List ℕ) → FirstByte x xs (find_byte x xs)
unfolding find_byte
find_byte-FirstByte x [] = tt
find_byte-FirstByte x (c ∷ cs) = elim (Bool-cases (c == x)) [
  | inl e ↦ rw e (ground arith, tt)
  | inr e ↦ rw e (FirstByte-cons x c cs (find_byte x cs) (ground arith) (find_byte-FirstByte x cs))
]

-- The readable bytes from an index on.
drop-contents :
    (start : ℕ) {b : Buffer}
    → IsValid b
    → b.reader_index ≤ start
    → start ≤ b.writer_index
    → drop (start - b.reader_index) (contents b) ≡ between start b.writer_index b.buffer
drop-contents start {b} v h k =
    let n = start - b.reader_index in
    let e : b.reader_index + n ≡ start = omega arith in
    let l : b.writer_index - b.reader_index - n ≡ b.writer_index - start = omega arith in
    drop-take n (b.writer_index - b.reader_index) (drop b.reader_index b.buffer)
    ∙ ap₂ take l (drop-drop n b.reader_index b.buffer ∙ ap (λ k. drop k b.buffer) e)

pub find_crlf-contents :
    {b : Buffer} → IsValid b → find_crlf b ≡ some (offset_from (peek b) (search_crlf (contents b)))
unfolding find_crlf
find_crlf-contents {b} v =
    rw (read_at-some b.buffer b.reader_index (b.writer_index - b.reader_index) (omega arith))

-- `findCRLF` never faults on a valid buffer, and answers null when there is no CR LF among the
-- readable bytes, otherwise the index of the first one.
pub find_crlf_lem :
    {b : Buffer}
    → IsValid b
    → (r : Option ℕ) × (find_crlf b ≡ some (offset_from (peek b) r)) × FirstCrlf (contents b) r
find_crlf_lem {b} v =
    (search_crlf (contents b), find_crlf-contents v, search_crlf-FirstCrlf (contents b))

-- The search on a line that ends in CR LF, and on bytes that hold none.
pub search_crlf_line :
    (line rest : List ℕ)
    → NoCrlf (line ++ b'\r' ∷ [])
    → search_crlf (line ++ b'\r' ∷ b'\n' ∷ rest) ≡ some (length line)
unfolding search_crlf
search_crlf_line [] rest h = refl
search_crlf_line (c ∷ []) rest h = ground arith
search_crlf_line (c ∷ d ∷ cs) rest h = ground (arith, search_crlf_line (d ∷ cs) rest h.1)

pub search_crlf-none : (xs : List ℕ) → NoCrlf xs → search_crlf xs ≡ none
unfolding search_crlf
search_crlf-none [] h = refl
search_crlf-none (c ∷ []) h = refl
search_crlf-none (c ∷ d ∷ cs) h = ground (arith, search_crlf-none (d ∷ cs) h.1)

-- `findCRLF(start)` is the same search on the readable bytes from `start` on.
pub find_crlf_from_lem :
    (start : ℕ) {b : Buffer}
    → IsValid b
    → b.reader_index ≤ start
    → start ≤ b.writer_index
    → (r : Option ℕ) × (find_crlf_from start b ≡ some (offset_from start r))
      × FirstCrlf (drop (start - b.reader_index) (contents b)) r
unfolding find_crlf_from
find_crlf_from_lem start {b} v h k =
    let range = between start b.writer_index b.buffer in
    (
      search_crlf range,
      rw (
        le→leb b.reader_index start h,
        le→leb start b.writer_index k,
        read_at-some b.buffer start (b.writer_index - start) (omega arith),
      ),
      rw (drop-contents start v h k) (search_crlf-FirstCrlf range),
    )

-- `findEOL` answers null when no readable byte is a line feed, otherwise the index of the first.
pub find_eol_lem :
    {b : Buffer}
    → IsValid b
    → (r : Option ℕ) × (find_eol b ≡ some (offset_from (peek b) r)) × FirstByte b'\n' (contents b) r
unfolding find_eol
find_eol_lem {b} v =
    let n_eq : readable_bytes b ≡ b.writer_index - b.reader_index = omega arith in
    (
      find_byte b'\n' (contents b),
      rw (
        n_eq,
        read_at-some b.buffer b.reader_index (b.writer_index - b.reader_index) (omega arith),
      ),
      find_byte-FirstByte b'\n' (contents b),
    )
