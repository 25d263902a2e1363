-- ===== src/AsyncLogging/Stop.antt =====
-- What `stop` does to the logger.
use conex.Prelude.{
  ◌≡◌, refl, ap₂, ◌∙◌, inl, inr, false, none, List, [], ◌∷◌, ◌++◌, map, arith, Option-cases, Bytes,
}
use conex.FixedBuffer.{FixedBuffer}
use conex.AsyncLogging.{
  AsyncLogging, Action, stop, log, turn_at, turn, act, run, begun, head, logs, turns, stops,
}
use conex.AsyncLogging.Run.{OnSome}
use conex.AsyncLogging.Step.{turn_ended}

-- The thread has ended.
abbrev HasEnded : AsyncLogging → List Bytes → Type 0
HasEnded s output = (s.place ≡ head) × (s.running ≡ false) × (s.output ≡ output)

act-HasEnded :
    (nb : FixedBuffer) (a : Action) (s : AsyncLogging) (output : List Bytes)
    → HasEnded s output
    → OnSome (λ s'. HasEnded s' output) (act nb a s)
unfolding act log stop
act-HasEnded nb (logs line) s output h = ground arith
act-HasEnded nb turns s output h = rw (turn_ended s h.0 h.1) h
act-HasEnded nb stops s output h = (h.0, refl, h.2)

-- Once the thread is not to run and is at the head of its loop, whatever happens then: nothing more
-- is handed over to the file, so what is in the buffers never is.
pub stopped_lem :
    (nb : FixedBuffer) (actions : List Action) (s : AsyncLogging) (output : List Bytes)
    → s.place ≡ head
    → s.running ≡ false
    → s.output ≡ output
    → OnSome (λ s'. s'.output ≡ output) (run nb actions s)
unfolding run
stopped_lem nb [] s output e t o = o
stopped_lem nb (a ∷ rest) s output e t o = elim (Option-cases (act nb a s)) [
  | inl n ↦ rw n tt
  | inr (s', n) ↦
      let h = rw n at (act-HasEnded nb a s output (e, t, o)) in
      rw n (stopped_lem nb rest s' output h.0 h.1 h.2)
]

turn_fails : (s : AsyncLogging) → s.place ≡ begun → s.running ≡ false → turn s ≡ none
unfolding turn turn_at
turn_fails s b r = ap₂ (λ w x. turn_at w x s) b r

log_keeps :
    (nb : FixedBuffer) (line : Bytes) (s : AsyncLogging)
    → OnSome (λ s'. (s'.place ≡ s.place) × (s'.running ≡ s.running)) (log nb line s)
unfolding log
log_keeps nb line s = ground arith

-- When `stop` comes before the first statement of the thread, the assert of the thread fails, or
-- that of a line that is logged in between.
pub early_stop_lem :
    (nb : FixedBuffer) (ls : List Bytes) (s : AsyncLogging)
    → s.place ≡ begun
    → run nb (stops ∷ (map logs ls ++ turns ∷ [])) s ≡ none
unfolding run act stop
early_stop_lem nb ls s b = fails ls (stop s) b refl
  where
    fails :
        (ls : List Bytes) (s : AsyncLogging)
        → s.place ≡ begun
        → s.running ≡ false
        → run nb (map logs ls ++ turns ∷ []) s ≡ none
    fails [] s b r = rw (turn_fails s b r) refl
    fails (l ∷ ls) s b r = elim (Option-cases (log nb l s)) [
      | inl e ↦ rw e refl
      | inr (s', e) ↦
          let same = rw e at (log_keeps nb l s) in rw e (fails ls s' (same.0 ∙ b) (same.1 ∙ r))
    ]
