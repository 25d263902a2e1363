-- ===== src/Buffer/Sequence.antt =====
-- Several appends in a row, as the writers of messages make them.
use conex.Prelude.{
  ℕ, ◌+◌, ◌≤◌, ◌≡◌, refl, sym, ap, ◌∙◌, inl, inr, Option, some, List, [], ◌∷◌, ◌++◌, append-nil,
  append_assoc, arith, Option-cases, ◌>>=◌, ◌>>◌, >>=-some, length, flatten, length-append,
}
use conex.Memory.{max_size}
use conex.Buffer.{Buffer, append}
use conex.Buffer.Inv.{IsValid, contents}
use conex.Buffer.Append.{Grows, append-Grows}

-- Several appends in a row.
unfoldable pub append_all : List (List ℕ) → Buffer → Option Buffer
append_all [] b = some b
append_all (bytes ∷ rest) b = do b' ← append bytes b; append_all rest b'

pub append_all-nil : (b : Buffer) → append_all [] b ≡ some b
unfolding append_all
append_all-nil b = refl

pub append_all-cons :
    (x : List ℕ) (xs : List (List ℕ)) (b : Buffer)
    → append_all (x ∷ xs) b ≡ (append x b >>= λ b'. append_all xs b')
unfolding append_all
append_all-cons x xs b = refl

pub append_all-append :
    (xs ys : List (List ℕ)) (b : Buffer)
    → append_all (xs ++ ys) b ≡ (append_all xs b >>= λ b'. append_all ys b')
unfolding append_all
append_all-append [] ys b = refl
append_all-append (x ∷ xs) ys b = elim (Option-cases (append x b)) [
  | inl e ↦ rw e
  | inr (b', e) ↦ rw e (append_all-append xs ys b')
]

pub append_all-Grows :
    (xs : List (List ℕ)) {b : Buffer}
    → IsValid b
    → b.writer_index + length (flatten xs) ≤ max_size
    → Grows (flatten xs) b (append_all xs b)
unfolding append_all
append_all-Grows [] {b} v h = record {
  result = b;
  returns = refl;
  valid = v;
  holds = sym (append-nil (contents b));
  bound = omega arith;
}
append_all-Grows (x ∷ xs) {b} v h =
    let size = length-append x (flatten xs) in
    let a = append-Grows x v (omega arith) in
    let r = append_all-Grows xs a.valid (omega (arith, a.bound)) in
    record {
      result = r.result;
      returns = rw a.returns r.returns;
      valid = r.valid;
      holds =
          r.holds ∙ ap (λ ys. ys ++ flatten xs) a.holds ∙ append_assoc (contents b) x (flatten xs);
      bound = omega (arith, a.bound, r.bound);
    }

-- A row of appends is the appends one by one.
pub ruleset appends = (append_all-nil, append_all-cons, append_all-append, >>=-some)
