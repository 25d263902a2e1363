-- ===== src/LogFile/Append.antt =====
-- What the log file comes to hold.
use conex.Prelude.{
  ℕ, ◌+◌, ◌-◌, ◌≤◌, ◌<◌, ◌≡◌, sym, ◌∙◌, true, false, List, [], ◌∷◌, ◌++◌, append-nil, append_assoc,
  arith, ltb, ◌==◌, lt→ltb, ==_false, length, take, drop, Bytes,
}
use conex.LogFile.{write_rest, file_append}

-- The bytes of the later writes: each again from the same place.
abbrev pub repeats : Bytes → List ℕ → Bytes
repeats from [] = []
repeats from (tmp ∷ answers) = take tmp from ++ repeats from answers

abbrev pub sum : List ℕ → ℕ
sum [] = 0
sum (n ∷ ns) = n + sum ns

abbrev pub AllPositive : List ℕ → Type 0
AllPositive [] = Unit {0}
AllPositive (n ∷ ns) = (0 < n) × AllPositive ns

write_rest_lem :
    (answers : List ℕ) (from : Bytes) (remain : ℕ) (file : Bytes)
    → AllPositive answers
    → sum answers ≤ remain
    → write_rest answers from remain file ≡ file ++ repeats from answers
unfolding write_rest
write_rest_lem [] from remain file h k = sym (append-nil file)
write_rest_lem (tmp ∷ answers) from remain file h k =
    let more : ltb 0 remain ≡ true = lt→ltb _ _ (omega arith) in
    let some_taken : (tmp == 0) ≡ false = ==_false tmp 0 (λ e. absurd (omega arith)) in
    rw (more, some_taken)
      (write_rest_lem answers from (remain - tmp) (file ++ take tmp from) h.1 (omega arith)
        ∙ append_assoc file (take tmp from) (repeats from answers))

-- When the first write takes n bytes of a line and the later ones some bytes each, no more than
-- are left in all, the file gets the first n bytes and then, for each later write, bytes from
-- position n: the pointer into the line stays where it is.
pub file_append_lem :
    (n : ℕ) (answers : List ℕ) (line file : Bytes)
    → AllPositive answers
    → n + sum answers ≤ length line
    → file_append n answers line file ≡ file ++ (take n line ++ repeats (drop n line) answers)
unfolding file_append
file_append_lem n answers line file h k =
    write_rest_lem answers (drop n line) (length line - n) (file ++ take n line) h (omega arith)
    ∙ append_assoc file (take n line) (repeats (drop n line) answers)
