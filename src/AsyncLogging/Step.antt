-- ===== src/AsyncLogging/Step.antt =====
-- A turn of the logger's thread.
use conex.Prelude.{
  ℕ, ◌≡◌, refl, sym, ap, ap₂, ◌∙◌, inl, inr, Bool, true, false, Option, none, some, List, ◌++◌, ltb,
  eq→==, Bool-cases, length, flatten,
}
use conex.FixedBuffer.{FixedBuffer}
use conex.AsyncLogging.{
  AsyncLogging, collect, write_out, is_empty, turn_at, turn, begun, head, waiting, writing,
}
use conex.AsyncLogging.Valid.{IsValid, IsSpare, texts, text_of, texts_of, logged, Place-cases}
use conex.AsyncLogging.Turn.{collect_lem, after_writing, write_out_lem}

-- The buffers that a turn of the thread writes, and whether they are too many.
abbrev pub overflows : AsyncLogging → Bool
overflows s = elim s.place [ writing bs ↦ ltb 25 (length bs) | _ ↦ false ]

turn_begins :
    (s : AsyncLogging)
    → s.place ≡ begun
    → s.running ≡ true
    → s.file_opens ≡ true
    → turn s ≡ some (record s { place = head })
unfolding turn turn_at
turn_begins s e t o = ap₂ (λ w r. turn_at w r s) e t ∙ rw o refl

spare_is_empty : (size : ℕ) (o : Option FixedBuffer) → IsSpare size o → is_empty o ≡ true
spare_is_empty size none h = absurd h
spare_is_empty size (some b) h = eq→== _ _ h.empty

turn-head :
    {size : ℕ} (s : AsyncLogging)
    → IsValid size s
    → s.place ≡ head
    → s.running ≡ true
    → turn s ≡ some (record s { place = waiting })
unfolding turn turn_at
turn-head {size} s v e t =
    let spares = rw e at v.writer_ok in
    ap₂ (λ w r. turn_at w r s) e t
    ∙ rw (spare_is_empty size s.new_buffer1 spares.0, spare_is_empty size s.new_buffer2 spares.1)
        refl

pub turn_ended : (s : AsyncLogging) → s.place ≡ head → s.running ≡ false → turn s ≡ some s
unfolding turn turn_at
turn_ended s e t = ap₂ (λ w r. turn_at w r s) e t

pub turn-waiting : (s : AsyncLogging) → s.place ≡ waiting → turn s ≡ collect s
unfolding turn turn_at
turn-waiting s e = ap (λ w. turn_at w s.running s) e

pub turn-writing :
    (bs : List FixedBuffer) (s : AsyncLogging) → s.place ≡ writing bs → turn s ≡ write_out bs s
unfolding turn turn_at
turn-writing bs s e = ap (λ w. turn_at w s.running s) e

-- A part of the thread keeps all that is logged, unless it has too many buffers to write.
pub turn_lem :
    {size : ℕ} (s : AsyncLogging)
    → IsValid size s
    → (result : AsyncLogging) × (turn s ≡ some result)
      × IsValid size result
      × (overflows s ≡ false → logged result ≡ logged s)
turn_lem {size} s v = elim (Place-cases s.place) [
  | inl e ↦
      let ok = rw e at v.begins_ok in
      (
        record s { place = head },
        turn_begins s e ok.0 ok.1,
        record {
          current_ok = v.current_ok;
          next_ok = v.next_ok;
          buffers_ok = v.buffers_ok;
          writer_ok = rw e at v.writer_ok;
          begins_ok = tt;
        },
        λ k. sym (
            ap
              (λ w.
                flatten s.output ++ (texts_of w ++ (texts s.buffers ++ text_of s.current_buffer)))
              e),
      )
  | inr (inl e) ↦ elim (Bool-cases s.running) [
    | inl t ↦ (
      record s { place = waiting },
      turn-head s v e t,
      record {
        current_ok = v.current_ok;
        next_ok = v.next_ok;
        buffers_ok = v.buffers_ok;
        writer_ok = rw e at v.writer_ok;
        begins_ok = tt;
      },
      λ k. sym (
          ap
            (λ w. flatten s.output ++ (texts_of w ++ (texts s.buffers ++ text_of s.current_buffer)))
            e),
    )
    | inr t ↦ (s, turn_ended s e t, v, λ k. refl)
  ]
  | inr (inr (inl e)) ↦
      let o = (collect_lem s v e).0 in
      (o.result, turn-waiting s e ∙ o.returns, o.valid, λ k. o.holds)
  | inr (inr (inr (bs, e))) ↦
      let o = (write_out_lem bs s v e).0 in
      (o.result, turn-writing bs s e ∙ o.returns, o.valid, λ k. o.holds ∙ written bs s e k)
]
  where
    written :
        (bs : List FixedBuffer) (s : AsyncLogging)
        → s.place ≡ writing bs
        → overflows s ≡ false
        → after_writing bs s ≡ logged s
    written bs s e k = rw (rw e at k, e) refl
