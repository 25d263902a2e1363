-- ===== src/AsyncLogging/Write.antt =====
-- What the parts of the logger do to a valid state.
use conex.Prelude.{
  ℕ, ◌^◌, ◌<◌, ◌≡◌, refl, sym, ap, ap₂, ◌∙◌, inl, inr, true, Option, none, some, List, [], ◌∷◌,
  ◌++◌, append-nil, append_assoc, arith, ltb, lt→ltb, Bool-cases, length, flatten, length-append,
  Bytes,
}
use conex.FixedBuffer.{FixedBuffer, avail}
use conex.FixedBuffer.Fill.{text, append_lem}
use conex.AsyncLogging.{AsyncLogging, take_next, log}
use conex.AsyncLogging.Valid.{
  IsFresh, IsValid, IsNext, texts, texts_of, logged, texts-append, AreBuffers-append,
  fresh_is_buffer, fresh_text, the_current,
}

-- The outcome of a part that has to succeed.
pub record Outcome (size : ℕ) (all : Bytes) (r : Option AsyncLogging) : Type 0 where
  pub result : AsyncLogging
  pub returns : r ≡ some result
  pub valid : IsValid size result
  pub holds : logged result ≡ all

pub take_next-IsFresh :
    {size : ℕ} {nb : FixedBuffer} (o : Option FixedBuffer) (bs : List FixedBuffer)
    → IsFresh size nb
    → IsNext size o bs
    → IsFresh size (take_next nb o)
take_next-IsFresh none bs f h = f
take_next-IsFresh (some b) bs f h = h

assoc4 : (a b c d e : Bytes) → a ++ (b ++ (c ++ (d ++ e))) ≡ a ++ (b ++ (c ++ d)) ++ e
assoc4 a b c d e =
    ap (λ x. a ++ x) (ap (λ x. b ++ x) (sym (append_assoc c d e)) ∙ sym (append_assoc b (c ++ d) e))
    ∙ sym (append_assoc a (b ++ (c ++ d)) e)

-- The line goes behind all that is logged.
pub log_lem :
    {size : ℕ} (nb : FixedBuffer) (line : Bytes) (s : AsyncLogging)
    → IsFresh size nb
    → IsValid size s
    → length line < size
    → length line < 2 ^ 31
    → Outcome size (logged s ++ line) (log nb line s)
unfolding log
log_lem {size} nb line s f v fits small =
    let (current, e, k) = the_current s.current_buffer v.current_ok in
    let front = flatten s.output in
    let middle = texts_of s.place in
    elim (Bool-cases (ltb (length line) (avail current))) [
      | inl t ↦
          let a = rw t at (append_lem line (record { inside = k.inside }) small) in
          rw (e, t, a.returns)
            (record {
              result = record s { current_buffer = some a.result };
              returns = refl;
              valid = record {
                current_ok = record { inside = a.is_open.inside; size_is = a.size ∙ k.size_is };
                next_ok = v.next_ok;
                buffers_ok = v.buffers_ok;
                writer_ok = v.writer_ok;
                begins_ok = v.begins_ok;
              };
              holds =
                  ap (λ x. front ++ (middle ++ (texts s.buffers ++ x))) a.holds
                  ∙ assoc4 front middle (texts s.buffers) (text current) line;
            })
      | inr t ↦
          let n = take_next-IsFresh s.next_buffer s.buffers f v.next_ok in
          let room : ltb (length line) (avail (take_next nb s.next_buffer)) ≡ true =
            lt→ltb _ _ (omega arith) in
          let a =
            rw room at (append_lem line (record { inside = (fresh_is_buffer n).inside }) small) in
          rw (e, t, a.returns)
            (record {
              result = record s {
                buffers = s.buffers ++ current ∷ [];
                current_buffer = some a.result;
                next_buffer = none;
              };
              returns = refl;
              valid = record {
                current_ok = record { inside = a.is_open.inside; size_is = a.size ∙ n.size_is };
                next_ok = omega (arith, length-append s.buffers (current ∷ []));
                buffers_ok = AreBuffers-append s.buffers current v.buffers_ok k;
                writer_ok = v.writer_ok;
                begins_ok = v.begins_ok;
              };
              holds =
                  ap₂ (λ x y. front ++ (middle ++ (x ++ y))) (texts-append s.buffers (current ∷ []))
                    (a.holds ∙ ap (λ x. x ++ line) (fresh_text n))
                  ∙ ap (λ x. front ++ (middle ++ (texts s.buffers ++ x ++ line)))
                      (append-nil (text current))
                  ∙ ap (λ x. front ++ (middle ++ x))
                      (append_assoc (texts s.buffers) (text current) line)
                  ∙ assoc4 front middle (texts s.buffers) (text current) line;
            })
    ]
