-- ===== src/LogFile/Flushed.antt =====
-- Which lines are flushed.
use conex.Prelude.{
  ℕ, suc, ◌+◌, ◌*◌, ◌≤◌, ◌<◌, ◌≡◌, refl, sym, ap, ap₂, ◌∙◌, subst, inl, inr, some, List, [], ◌∷◌,
  ◌++◌, map, append-nil, append_assoc, arith, leb, leb-false→lt, leb→le, Bool-cases, length, take,
  drop, length-append, length-drop, take-append-drop, take-all, Bytes,
}
use conex.LogFile.{LogFile, file_append, make_log_file, flush, append_unlocked, close}
use conex.LogFile.Append.{repeats, sum, AllPositive, file_append_lem}

-- A line with what its first write takes and the later ones take.
pub record Written : Type 0 where
  pub line : Bytes
  pub first : ℕ
  pub later : List ℕ

-- Every later write takes something, until nothing is left or the writes fail.
abbrev pub AreWritten : List Written → Type 0
AreWritten [] = Unit {0}
AreWritten (w ∷ ws) = AllPositive w.later × (w.first + sum w.later ≤ length w.line) × AreWritten ws

unfoldable pub append_lines : List Written → LogFile → LogFile
append_lines [] f = f
append_lines (w ∷ ws) f = append_lines ws (append_unlocked w.first w.later w.line f)

-- What the file gets of a line: the first bytes, and then bytes from where the first write ended, at
-- every later write again.
abbrev pub put_down : Written → Bytes
put_down w = take w.first w.line ++ repeats (drop w.first w.line) w.later

-- Each line is taken whole, by one write or by two.
abbrev pub AreWhole : List Written → Type 0
AreWhole [] = Unit {0}
AreWhole (w ∷ ws) = (w.first + sum w.later ≡ length w.line) × (length w.later ≤ 1) × AreWhole ws

abbrev pub lines_of : List Written → List Bytes
lines_of ws = map (λ w. w.line) ws

put_down_whole :
    (first : ℕ) (later : List ℕ) (line : Bytes)
    → first + sum later ≡ length line
    → length later ≤ 1
    → take first line ++ repeats (drop first line) later ≡ line
put_down_whole first [] line h k = append-nil (take first line) ∙ take-all first line (omega arith)
put_down_whole first (n ∷ []) line h k =
    ap (λ x. take first line ++ x)
      (append-nil (take n (drop first line))
        ∙ take-all n (drop first line) (omega (arith, length-drop first line)))
    ∙ take-append-drop first line
put_down_whole first (n ∷ m ∷ ms) line h k = absurd (omega arith)

lines_whole : (ws : List Written) → AreWhole ws → map put_down ws ≡ lines_of ws
lines_whole [] h = refl
lines_whole (w ∷ ws) h =
    ap₂ (λ l ls. l ∷ ls) (put_down_whole w.first w.later w.line h.0 h.1) (lines_whole ws h.2)

abbrev pub joined : List Bytes → Bytes
joined [] = []
joined (line ∷ lines) = line ++ joined lines

joined-append : (ls ms : List Bytes) → joined (ls ++ ms) ≡ joined ls ++ joined ms
joined-append [] ms = refl
joined-append (l ∷ ls) ms =
    ap (λ x. l ++ x) (joined-append ls ms) ∙ sym (append_assoc l (joined ls) (joined ms))

joined-last : (ls : List Bytes) (l : Bytes) → joined (ls ++ l ∷ []) ≡ joined ls ++ l
joined-last ls l = joined-append ls (l ∷ []) ∙ ap (λ x. joined ls ++ x) (append-nil l)

-- A log file that had some bytes before and was given some lines: whole rounds of them are flushed,
-- and less than one round waits.
pub record Logged (every : ℕ) (old : Bytes) (lines : List Bytes) (f : LogFile) : Type 0 where
  pub out : List Bytes
  pub waiting : List Bytes
  pub rounds : ℕ
  pub all_lines : lines ≡ out ++ waiting
  pub whole_rounds : length out ≡ rounds * every
  pub less : length waiting < every
  pub holds : f.file ≡ old ++ joined lines
  pub flushed_is : f.flushed ≡ length (old ++ joined out)
  pub count_is : f.count ≡ length waiting
  pub every_is : f.flush_every ≡ every

append_unlocked-Logged :
    {every : ℕ} {old : Bytes} {lines : List Bytes} {f : LogFile} (w : Written)
    → AllPositive w.later
    → w.first + sum w.later ≤ length w.line
    → Logged every old lines f
    → Logged every old (lines ++ put_down w ∷ []) (append_unlocked w.first w.later w.line f)
unfolding append_unlocked flush
append_unlocked-Logged {every} {old} {lines} {f} w some_taken fits h =
    let line = put_down w in
    let file : file_append w.first w.later w.line f.file ≡ old ++ joined (lines ++ line ∷ []) =
      file_append_lem w.first w.later w.line f.file some_taken fits
      ∙ ap (λ x. x ++ line) h.holds
      ∙ append_assoc old (joined lines) line
      ∙ ap (λ x. old ++ x) (sym (joined-last lines line)) in
    let size = length-append h.waiting (line ∷ []) in
    elim (Bool-cases (leb f.flush_every (f.count + 1))) [
      | inl t ↦ rw t (record {
        out = lines ++ line ∷ [];
        waiting = [];
        rounds = suc h.rounds;
        all_lines = sym (append-nil (lines ++ line ∷ []));
        whole_rounds = omega (
          arith,
          length-append lines (line ∷ []),
          length-append h.out h.waiting,
          ap length h.all_lines,
          leb→le _ _ t,
        );
        less = omega arith;
        holds = file;
        flushed_is = ap length file;
        count_is = refl;
        every_is = h.every_is;
      })
      | inr t ↦ rw t (record {
        out = h.out;
        waiting = h.waiting ++ line ∷ [];
        rounds = h.rounds;
        all_lines = ap (λ x. x ++ line ∷ []) h.all_lines ∙ append_assoc h.out h.waiting (line ∷ []);
        whole_rounds = h.whole_rounds;
        less = omega (arith, leb-false→lt _ _ t);
        holds = file;
        flushed_is = h.flushed_is;
        count_is = omega arith;
        every_is = h.every_is;
      })
    ]

append_lines-Logged :
    {every : ℕ} {old : Bytes} (ws : List Written) {lines : List Bytes} {f : LogFile}
    → AreWritten ws
    → Logged every old lines f
    → Logged every old (lines ++ map put_down ws) (append_lines ws f)
unfolding append_lines
append_lines-Logged {every} {old} [] {lines} {f} k h =
    subst (λ ls. Logged every old ls f) (sym (append-nil lines)) h
append_lines-Logged {every} {old} (w ∷ ws) {lines} {f} k h =
    let f' = append_unlocked w.first w.later w.line f in
    subst (λ ls. Logged every old ls (append_lines ws f'))
      (append_assoc lines (put_down w ∷ []) (map put_down ws))
      (append_lines-Logged ws k.2 (append_unlocked-Logged w k.0 k.1 h))

-- A log file that opens keeps what the file held before. After any lines, whatever the writes take
-- of each, it holds these bytes and then, line for line, the bytes that the first write took and,
-- at every later write, bytes from where the first one ended. So it holds the lines, in order and
-- whole, if each is taken by one write or by two. All of the lines but the last few are flushed: a
-- multiple of `flush_every` of them is, and fewer than `flush_every` wait. Once it is closed all of
-- it is flushed.
pub append_lines_lem :
    (every : ℕ) (old : Bytes) (ws : List Written)
    → 0 < every
    → AreWritten ws
    → (f : LogFile) × (make_log_file every (some old) ≡ some f)
      × Logged every old (map put_down ws) (append_lines ws f)
      × ((close (append_lines ws f)).flushed ≡ length (old ++ joined (map put_down ws)))
      × (AreWhole ws → (append_lines ws f).file ≡ old ++ joined (lines_of ws))
unfolding make_log_file close
append_lines_lem every old ws h k =
    let f : LogFile = record { flush_every = every; count = 0; file = old; flushed = length old } in
    let start : Logged every old [] f = record {
      out = [];
      waiting = [];
      rounds = 0;
      all_lines = refl;
      whole_rounds = omega arith;
      less = h;
      holds = sym (append-nil old);
      flushed_is = ap length (sym (append-nil old));
      count_is = refl;
      every_is = refl;
    } in
    let r = append_lines-Logged ws k start in
    (f, refl, r, ap length r.holds, λ w. r.holds ∙ ap (λ ls. old ++ joined ls) (lines_whole ws w))
