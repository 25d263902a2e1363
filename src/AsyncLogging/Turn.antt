-- ===== src/AsyncLogging/Turn.antt =====
-- What the two parts of the thread's loop do to a valid state.
use conex.Prelude.{
  ℕ, zero, suc, ◌<◌, min, ◌≡◌, refl, ap, ap₂, ◌∙◌, inl, inr, true, false, Option, none, some, List,
  [], ◌∷◌, ◌++◌, map, reverse, append-nil, append_assoc, arith, ltb, ltb→lt, lt→ltb, le→ltb,
  ltb-false→le, Bool-cases, length, take, flatten, flatten-append, length-append, length-take,
  Bytes,
}
use conex.FixedBuffer.{FixedBuffer, reset}
use conex.FixedBuffer.Fill.{text}
use conex.AsyncLogging.{
  AsyncLogging, or_else, kept_spare, collect, to_output, left_over, refill, write_out, head,
  waiting, writing,
}
use conex.AsyncLogging.Valid.{
  IsBuffer, IsFresh, IsValid, AreBuffers, IsSpare, IsNext, IsWriter, texts, text_of, logged,
  texts-append, flatten-texts, AreBuffers-append, fresh_is_buffer, fresh_text, the_current,
  the_spare,
}
use conex.AsyncLogging.Write.{Outcome}
use mathlib.Core.List.{reverse-cons}

or_else-IsNext :
    (size : ℕ) (next new2 : Option FixedBuffer) (bs : List FixedBuffer)
    → IsNext size next bs
    → IsSpare size new2
    → IsNext size (or_else next new2) []
or_else-IsNext size none none bs h k = absurd k
or_else-IsNext size none (some b) bs h k = k
or_else-IsNext size (some a) new2 bs h k = h

kept_spare-IsWriter :
    (size : ℕ) (next new2 : Option FixedBuffer) (bs : List FixedBuffer) (b : FixedBuffer)
    → IsNext size next bs
    → IsSpare size new2
    → AreBuffers size (bs ++ b ∷ [])
    → IsWriter size none (kept_spare next new2) (writing (bs ++ b ∷ []))
kept_spare-IsWriter size none new2 bs b h k a = (a, omega (arith, length-append bs (b ∷ [])))
kept_spare-IsWriter size (some c) none bs b h k a = absurd k
kept_spare-IsWriter size (some c) (some d) bs b h k a =
    (k, a, omega (arith, length-append bs (b ∷ [])))

collect_at :
    (size : ℕ) (s : AsyncLogging) (current b : FixedBuffer)
    → IsValid size s
    → s.place ≡ waiting
    → s.current_buffer ≡ some current
    → IsBuffer size current
    → s.new_buffer1 ≡ some b
    → IsFresh size b
    → IsSpare size s.new_buffer2
    → (o : Outcome size (logged s) (collect s)) × (o.result.output ≡ s.output)
      × (o.result.place ≡ writing (s.buffers ++ current ∷ []))
unfolding collect
collect_at size s current b v none_written e k eb fresh spare2 =
    let full = s.buffers ++ current ∷ [] in
    let full_ok = AreBuffers-append s.buffers current v.buffers_ok k in
    let o : Outcome size (logged s) (collect s) = record {
      result = record s {
        current_buffer = s.new_buffer1;
        new_buffer1 = none;
        buffers = [];
        place = writing full;
        next_buffer = or_else s.next_buffer s.new_buffer2;
        new_buffer2 = kept_spare s.next_buffer s.new_buffer2;
      };
      returns = rw e refl;
      valid = record {
        current_ok = rw eb (fresh_is_buffer fresh);
        next_ok = or_else-IsNext size s.next_buffer s.new_buffer2 s.buffers v.next_ok spare2;
        buffers_ok = tt;
        writer_ok =
            kept_spare-IsWriter size s.next_buffer s.new_buffer2 s.buffers current v.next_ok spare2
              full_ok;
        begins_ok = tt;
      };
      holds =
          rw (e, eb, none_written)
            (ap₂ (λ x y. flatten s.output ++ (x ++ y)) (texts-append s.buffers (current ∷ []))
                (fresh_text fresh)
              ∙ ap (λ x. flatten s.output ++ x)
                  (append-nil (texts s.buffers ++ (text current ++ [])))
              ∙ ap (λ x. flatten s.output ++ (texts s.buffers ++ x)) (append-nil (text current)));
    } in
    (o, refl, refl)

-- The part under the lock moves what waits to what is being written.
pub collect_lem :
    {size : ℕ} (s : AsyncLogging) (v : IsValid size s)
    → s.place ≡ waiting
    → (o : Outcome size (logged s) (collect s)) × (o.result.output ≡ s.output)
      × (o.result.place ≡ writing (s.buffers ++ (the_current s.current_buffer v.current_ok).0 ∷ []))
collect_lem {size} s v none_written =
    let (current, e, k) = the_current s.current_buffer v.current_ok in
    let spares = rw none_written at v.writer_ok in
    let (b, eb, fresh) = the_spare s.new_buffer1 spares.0 in
    collect_at size s current b v none_written e k eb fresh spares.1

AreBuffers-take :
    (size : ℕ) (n : ℕ) (bs : List FixedBuffer) → AreBuffers size bs → AreBuffers size (take n bs)
AreBuffers-take size zero bs h = tt
AreBuffers-take size (suc n) [] h = tt
AreBuffers-take size (suc n) (b ∷ bs) h = (h.0, AreBuffers-take size n bs h.1)

AreBuffers-reverse :
    (size : ℕ) (bs : List FixedBuffer) → AreBuffers size bs → AreBuffers size (reverse bs)
AreBuffers-reverse size [] h = tt
AreBuffers-reverse size (b ∷ bs) h =
    rw (reverse-cons b bs) (AreBuffers-append (reverse bs) b (AreBuffers-reverse size bs h.1) h.0)

left_over_lem :
    (size : ℕ) (bs : List FixedBuffer)
    → AreBuffers size bs
    → AreBuffers size (left_over (to_output bs))
      × (length (left_over (to_output bs)) ≡ min 2 (length bs))
left_over_lem size bs h = elim (Bool-cases (ltb 25 (length bs))) [
  | inl t ↦
      let two = length-take 2 bs in
      let big = ltb→lt _ _ t in
      let e : ltb 2 (length (take 2 bs)) ≡ false = le→ltb _ _ (omega arith) in
      rw (t, e) (AreBuffers-take size 2 bs h, length-take 2 bs)
  | inr t ↦ rw t (elim (Bool-cases (ltb 2 (length bs))) [
    | inl u ↦ rw u (AreBuffers-take size 2 bs h, length-take 2 bs)
    | inr u ↦ rw u (h, ground (arith, ltb-false→le _ _ u))
  ])
]

length-reverse' : (bs : List FixedBuffer) → length (reverse bs) ≡ length bs
length-reverse' [] = refl
length-reverse' (b ∷ bs) =
    omega (
      arith,
      ap length (reverse-cons b bs),
      length-append (reverse bs) (b ∷ []),
      length-reverse' bs,
    )

-- A missing spare buffer comes from the back of the buffers written.
refill_lem :
    {size : ℕ} (left : List FixedBuffer)
    → AreBuffers size left
    → 0 < length left
    → (b : FixedBuffer) × (rest : List FixedBuffer) × (refill none left ≡ some (some b, rest))
      × IsFresh size b
      × AreBuffers size rest
      × (length left ≡ suc (length rest))
unfolding refill reset
refill_lem {size} left h p = go (reverse left) refl (AreBuffers-reverse size left h)
  where
    go :
        (bs : List FixedBuffer)
        → reverse left ≡ bs
        → AreBuffers size bs
        → (b : FixedBuffer) × (rest : List FixedBuffer) × (refill none left ≡ some (some b, rest))
          × IsFresh size b
          × AreBuffers size rest
          × (length left ≡ suc (length rest))
    go [] e k = absurd (omega (arith, ap length e, length-reverse' left))
    go (b ∷ bs) e k = (
      reset b,
      reverse bs,
      rw (refill, e) refl,
      record { empty = refl; positive = omega arith; size_is = k.0.size_is },
      AreBuffers-reverse size bs k.1,
      omega (arith, ap length e, length-reverse' left, length-reverse' bs),
    )

-- Both spare buffers are there again after the writing.
record Refilled (size : ℕ) (new1 new2 : Option FixedBuffer) (left : List FixedBuffer) : Type 0 where
  b1 : Option FixedBuffer
  b2 : Option FixedBuffer
  left1 : List FixedBuffer
  left2 : List FixedBuffer
  first : refill new1 left ≡ some (b1, left1)
  second : refill new2 left1 ≡ some (b2, left2)
  spare1 : IsSpare size b1
  spare2 : IsSpare size b2

refill_both :
    (size : ℕ) (new1 new2 : Option FixedBuffer) (bs : List FixedBuffer)
    → IsWriter size new1 new2 (writing bs)
    → Refilled size new1 new2 (left_over (to_output bs))
unfolding refill
refill_both size (some b) new2 bs h = absurd h
refill_both size none none bs h =
    let l = left_over_lem size bs h.0 in
    let (b, rest, e, f, a, n) =
      refill_lem (left_over (to_output bs)) l.0 (omega (arith, l.1, h.1)) in
    let (c, rest2, e2, f2, a2, n2) = refill_lem rest a (omega (arith, l.1, h.1, n)) in
    record {
      b1 = some b;
      b2 = some c;
      left1 = rest;
      left2 = rest2;
      first = e;
      second = e2;
      spare1 = f;
      spare2 = f2;
    }
refill_both size none (some d) bs h =
    let l = left_over_lem size bs h.1 in
    let (b, rest, e, f, a, n) =
      refill_lem (left_over (to_output bs)) l.0 (omega (arith, l.1, h.2)) in
    record {
      b1 = some b;
      b2 = some d;
      left1 = rest;
      left2 = rest;
      first = e;
      second = refl;
      spare1 = f;
      spare2 = h.0;
    }

some_are_written :
    (size : ℕ) (new1 new2 : Option FixedBuffer) (bs : List FixedBuffer)
    → IsWriter size new1 new2 (writing bs)
    → 0 < length bs
some_are_written size (some b) new2 bs h = absurd h
some_are_written size none none bs h = omega (arith, h.1)
some_are_written size none (some d) bs h = h.2

-- What the file has been given and what waits, once `bs` has been written.
abbrev pub after_writing : List FixedBuffer → AsyncLogging → Bytes
after_writing bs s =
    flatten s.output ++ (texts (to_output bs) ++ (texts s.buffers ++ text_of s.current_buffer))

-- The part without the lock hands over all buffers, or the first two if there are more than 25.
pub write_out_lem :
    {size : ℕ} (bs : List FixedBuffer) (s : AsyncLogging)
    → IsValid size s
    → s.place ≡ writing bs
    → (o : Outcome size (after_writing bs s) (write_out bs s)) × (o.result.output
        ≡ s.output ++ map text (to_output bs))
unfolding write_out
write_out_lem {size} bs s v e =
    let r = refill_both size s.new_buffer1 s.new_buffer2 bs (rw e at v.writer_ok) in
    let some_written : ltb 0 (length bs) ≡ true =
      lt→ltb _ _ (some_are_written size s.new_buffer1 s.new_buffer2 bs (rw e at v.writer_ok)) in
    let o : Outcome size (after_writing bs s) (write_out bs s) = record {
      result = record s {
        output = s.output ++ map text (to_output bs);
        place = head;
        new_buffer1 = r.b1;
        new_buffer2 = r.b2;
      };
      returns = rw (some_written, r.first, r.second) refl;
      valid = record {
        current_ok = v.current_ok;
        next_ok = v.next_ok;
        buffers_ok = v.buffers_ok;
        writer_ok = (r.spare1, r.spare2);
        begins_ok = tt;
      };
      holds =
          ap (λ x. x ++ (texts s.buffers ++ text_of s.current_buffer))
            (flatten-append s.output (map text (to_output bs))
              ∙ ap (λ x. flatten s.output ++ x) (flatten-texts (to_output bs)))
          ∙ append_assoc (flatten s.output) (texts (to_output bs))
              (texts s.buffers ++ text_of s.current_buffer);
    } in
    (o, refl)
