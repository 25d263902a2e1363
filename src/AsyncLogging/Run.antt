-- ===== src/AsyncLogging/Run.antt =====
-- The logger under any order of its threads.
use conex.Prelude.{
  ℕ, zero, suc, ◌^◌, ◌≤◌, ◌<◌, ◌≡◌, refl, sym, ap, ap₂, ◌∙◌, Bool, true, false, Option, none, some,
  List, [], ◌∷◌, ◌++◌, map, append-nil, arith, ltb, lt→ltb, le→ltb, ◌>>=◌, length, take, flatten,
  flatten-append, length-append, Bytes,
}
use conex.FixedBuffer.{FixedBuffer}
use conex.AsyncLogging.{
  AsyncLogging, Action, to_output, turn, act, run, waiting, logs, turns, stops,
}
use conex.AsyncLogging.Valid.{
  IsValid, texts, text_of, texts_of, logged, texts-append, flatten-texts, the_current,
}
use conex.AsyncLogging.Turn.{collect_lem, write_out_lem}
use conex.AsyncLogging.Step.{overflows, turn-waiting, turn-writing}
use conex.FixedBuffer.Fill.{text}

-- Lines that are shorter than a buffer, and than 2 GiB.
abbrev pub AreLines : ℕ → List Action → Type 0
AreLines size [] = Unit {0}
AreLines size (logs line ∷ actions) =
    (length line < size) × (length line < 2 ^ 31) × AreLines size actions
AreLines size (action ∷ actions) = AreLines size actions

abbrev pub lines : List Action → Bytes
lines [] = []
lines (logs line ∷ actions) = line ++ lines actions
lines (action ∷ actions) = lines actions

-- What holds of a state if there is one.
abbrev pub OnSome : (AsyncLogging → Type 0) → Option AsyncLogging → Type 0
OnSome P none = Unit {0}
OnSome P (some s) = P s

-- No turn among the actions has too many buffers to write.
abbrev pub KeepsUp : FixedBuffer → List Action → AsyncLogging → Type 0
KeepsUp nb [] s = Unit {0}
KeepsUp nb (turns ∷ rest) s = (overflows s ≡ false) × OnSome (KeepsUp nb rest) (turn s)
KeepsUp nb (action ∷ rest) s = OnSome (KeepsUp nb rest) (act nb action s)

-- `stop` comes before the thread has begun.
abbrev pub stops_early : List Action → Bool
stops_early [] = false
stops_early (turns ∷ rest) = false
stops_early (stops ∷ rest) = true
stops_early (logs line ∷ rest) = stops_early rest

-- The outcome of a sequence of actions.
pub record Ran (size : ℕ) (nb : FixedBuffer) (actions : List Action) (s : AsyncLogging)
    : Type 0 where
  pub result : AsyncLogging
  pub returns : run nb actions s ≡ some result
  pub valid : IsValid size result
  pub holds : KeepsUp nb actions s → logged result ≡ logged s ++ lines actions

-- What a round hands over of the buffers that it finds, the current one last.
handed_over :
    (bs : List FixedBuffer) (current : FixedBuffer)
    → (length bs < 25 → to_output (bs ++ current ∷ []) ≡ bs ++ current ∷ [])
      × (25 ≤ length bs → to_output (bs ++ current ∷ []) ≡ take 2 bs)
handed_over bs current =
    let size = length-append bs (current ∷ []) in
    (
      λ small.
          let few : ltb 25 (length (bs ++ current ∷ [])) ≡ false = le→ltb _ _ (omega arith) in
          rw few refl,
      λ large.
          let many : ltb 25 (length (bs ++ current ∷ [])) ≡ true = lt→ltb _ _ (omega arith) in
          rw many (take_front 2 bs (current ∷ []) (omega arith)),
    )
  where
    take_front : (n : ℕ) (xs ys : List FixedBuffer) → n ≤ length xs → take n (xs ++ ys) ≡ take n xs
    take_front zero xs ys h = refl
    take_front (suc n) [] ys h = absurd (omega arith)
    take_front (suc n) (x ∷ xs) ys h = ap (λ l. x ∷ l) (take_front n xs ys (omega arith))

-- A thread in the wait of its loop: the rest of the round succeeds. With less than 25 full buffers
-- waiting it hands over all that has been logged, in order. With 25 or more it hands over the first
-- two of them, and the others are lost with the current one.
pub writes_all :
    {size : ℕ} (s : AsyncLogging)
    → IsValid size s
    → s.place ≡ waiting
    → (result : AsyncLogging) × ((do s' ← turn s; turn s') ≡ some result)
      × IsValid size result
      × (length s.buffers < 25 → flatten result.output ≡ logged s)
      × (25 ≤ length s.buffers
          → flatten result.output ≡ flatten s.output ++ texts (take 2 s.buffers))
writes_all {size} s v e =
    let (current, ec, k) = the_current s.current_buffer v.current_ok in
    let (o, same, written) = collect_lem s v e in
    let bs = s.buffers ++ current ∷ [] in
    let (o2, output_is) = write_out_lem bs o.result o.valid written in
    let put : flatten o2.result.output ≡ flatten s.output ++ texts (to_output bs) =
      ap flatten output_is
      ∙ flatten-append o.result.output (map text (to_output bs))
      ∙ ap₂ (λ x y. flatten x ++ y) same (flatten-texts (to_output bs)) in
    let h = handed_over s.buffers current in
    (
      o2.result,
      ap (λ r. r >>= turn) (turn-waiting s e ∙ o.returns)
          ∙ turn-writing bs o.result written
          ∙ o2.returns,
      o2.valid,
      λ small.
          put
          ∙ ap (λ x. flatten s.output ++ x)
              (ap texts (h.0 small) ∙ texts-append s.buffers (current ∷ []))
          ∙ ap (λ x. flatten s.output ++ (texts s.buffers ++ x)) (append-nil _)
          ∙ sym (
              ap₂ (λ w c. flatten s.output ++ (texts_of w ++ (texts s.buffers ++ text_of c))) e ec),
      λ large. put ∙ ap (λ x. flatten s.output ++ texts x) (h.1 large),
    )
