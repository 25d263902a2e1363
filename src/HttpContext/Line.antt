-- ===== src/HttpContext/Line.antt =====
-- Taking one line off the front of a buffer, as both line states of the parser do.
use conex.Prelude.{
  ℕ, ◌+◌, ◌-◌, ◌≡◌, ap, ◌∙◌, some, [], ◌∷◌, ◌++◌, arith, length, take, drop, length-append,
  take-all, take-append_le, drop-append_ge, Bytes,
}
use conex.Memory.{read_at}
use conex.Memory.Laws.{length-between, read_at-some}
use conex.Buffer.{Buffer, peek, retrieve_until, search_crlf, offset_from, find_crlf}
use conex.Buffer.Inv.{IsValid, contents}
use conex.Buffer.Retrieve.{retrieve_until_lem, take-contents}
use conex.Buffer.Search.{NoCrlf, find_crlf-contents, search_crlf_line}

-- The readable bytes begin with a line that ends in CR LF.
pub record Line (line rest : Bytes) (b : Buffer) : Type 0 where
  pub valid : IsValid b
  pub holds : contents b ≡ line ++ b'\r' ∷ b'\n' ∷ rest
  pub no_crlf : NoCrlf (line ++ b'\r' ∷ [])

-- What the parser's calls on such a buffer give.
pub record Taken (line rest : Bytes) (b : Buffer) : Type 0 where
  pub crlf : ℕ
  pub found : find_crlf b ≡ some (some crlf)
  pub reads : read_at b.buffer (peek b) (crlf - peek b) ≡ some line
  pub left : Buffer
  pub retrieves : retrieve_until (crlf + 2) b ≡ some left
  pub valid : IsValid left
  pub holds : contents left ≡ rest

drop_line : (line rest : Bytes) → drop (length line + 2) (line ++ b'\r' ∷ b'\n' ∷ rest) ≡ rest
drop_line line rest =
    let e : length line + 2 - length line ≡ 2 = omega arith in
    drop-append_ge (length line + 2) line (b'\r' ∷ b'\n' ∷ rest) (omega arith)
    ∙ ap (λ k. drop k (b'\r' ∷ b'\n' ∷ rest)) e

pub Line-Taken : (line rest : Bytes) {b : Buffer} → Line line rest b → Taken line rest b
Line-Taken line rest {b} l =
    let v = l.valid in
    let n = length line in
    let size : b.writer_index - b.reader_index ≡ n + 2 + length rest = omega (
      arith,
      length-between b.reader_index b.writer_index b.buffer v.inside,
      ap length l.holds,
      length-append line (b'\r' ∷ b'\n' ∷ rest),
    ) in
    let crlf = b.reader_index + n in
    let e : crlf - b.reader_index ≡ n = omega arith in
    let e2 : crlf + 2 - b.reader_index ≡ n + 2 = omega arith in
    let r = retrieve_until_lem (crlf + 2) v (omega arith) (omega arith) in
    let front : take n (drop b.reader_index b.buffer) ≡ line =
      take-contents n v (omega arith)
      ∙ ap (take n) l.holds
      ∙ take-append_le n line (b'\r' ∷ b'\n' ∷ rest) (omega arith)
      ∙ take-all n line (omega arith) in
    let back : drop (n + 2) (contents b) ≡ rest = ap (drop (n + 2)) l.holds ∙ drop_line line rest in
    record {
      crlf = crlf;
      found =
          find_crlf-contents v
          ∙ ap (λ xs. some (offset_from b.reader_index (search_crlf xs))) l.holds
          ∙ ap (λ o. some (offset_from b.reader_index o)) (search_crlf_line line rest l.no_crlf);
      reads = rw e (read_at-some b.buffer b.reader_index n (omega arith) ∙ ap some front);
      left = r.result;
      retrieves = r.returns;
      valid = r.valid;
      holds = r.holds ∙ ap (λ k. drop k (contents b)) e2 ∙ back;
    }
