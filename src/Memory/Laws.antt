-- ===== src/Memory/Laws.antt =====
-- Which accesses succeed, and what they leave where.
use conex.Prelude.{
  ℕ, ◌+◌, ◌-◌, ◌≤◌, ◌≡◌, refl, ap, ◌∙◌, List, ◌++◌, some, arith, append-nil, le→leb, length, take,
  drop, replicate, length-append, length-take, length-drop, take-all, drop-all, take-append_le,
  drop-append_le, take-append_ge, drop-take,
}
use conex.Memory.{max_size, read_at, write_at, resize}

-- The bytes of a list between two indices.
abbrev pub between : ℕ → ℕ → List ℕ → List ℕ
between i j xs = take (j - i) (drop i xs)

pub length-between : (i j : ℕ) (xs : List ℕ) → j ≤ length xs → length (between i j xs) ≡ j - i
length-between i j xs h = omega (arith, length-take (j - i) (drop i xs), length-drop i xs)

pub read_at-some :
    (xs : List ℕ) (i n : ℕ) → i + n ≤ length xs → read_at xs i n ≡ some (take n (drop i xs))
unfolding read_at
read_at-some xs i n h = rw (le→leb _ _ h)

-- What `write_at` makes of the storage where it succeeds.
abbrev pub written : List ℕ → ℕ → List ℕ → List ℕ
written xs i bytes = take i xs ++ bytes ++ drop (i + length bytes) xs

pub write_at-some :
    (xs : List ℕ) (i : ℕ) (bytes : List ℕ)
    → i + length bytes ≤ length xs
    → write_at xs i bytes ≡ some (written xs i bytes)
unfolding write_at
write_at-some xs i bytes h = rw (le→leb _ _ h)

pub length-written :
    (xs : List ℕ) (i : ℕ) (bytes : List ℕ)
    → i + length bytes ≤ length xs
    → length (written xs i bytes) ≡ length xs
length-written xs i bytes h = omega (
  arith,
  length-append (take i xs ++ bytes) (drop (i + length bytes) xs),
  length-append (take i xs) bytes,
  length-take i xs,
  length-drop (i + length bytes) xs,
)

length-take_le : (n : ℕ) (xs : List ℕ) → n ≤ length xs → length (take n xs) ≡ n
length-take_le n xs h = omega (arith, length-take n xs)

-- A prefix of the right length.
take-append_eq : (n : ℕ) (xs ys : List ℕ) → length xs ≡ n → take n (xs ++ ys) ≡ xs
take-append_eq n xs ys e = take-append_le n xs ys (omega arith) ∙ take-all n xs (omega arith)

-- Writing just behind the bytes [i, j) extends them.
pub between-written_end :
    (xs : List ℕ) (i j : ℕ) (bytes : List ℕ)
    → i ≤ j
    → j + length bytes ≤ length xs
    → between i (j + length bytes) (written xs j bytes) ≡ between i j xs ++ bytes
between-written_end xs i j bytes hij h =
    let size : length (take j xs) ≡ j = length-take_le j xs (omega arith) in
    rw
      (
        drop-append_le i (take j xs ++ bytes) (drop (j + length bytes) xs)
            (omega (arith, length-append (take j xs) bytes)),
        drop-append_le i (take j xs) bytes (omega arith),
        drop-take i j xs,
      )
      (take-append_eq (j + length bytes - i) (between i j xs ++ bytes) (drop (j + length bytes) xs)
        (omega (arith, length-append (between i j xs) bytes, length-between i j xs)))

-- Writing just before the bytes [j, k) extends them too.
pub between-written_front :
    (xs : List ℕ) (i j k : ℕ) (bytes : List ℕ)
    → i + length bytes ≡ j
    → j ≤ k
    → k ≤ length xs
    → between i k (written xs i bytes) ≡ bytes ++ between j k xs
between-written_front xs i j k bytes e hjk h =
    let size : length (take i xs) ≡ i = length-take_le i xs (omega arith) in
    rw
      (
        drop-append_le i (take i xs ++ bytes) (drop (i + length bytes) xs)
            (omega (arith, length-append (take i xs) bytes)),
        drop-append_le i (take i xs) bytes (omega arith),
        drop-all i (take i xs) (omega arith),
        take-append_ge (k - i) bytes (drop (i + length bytes) xs) (omega arith),
        e,
      )
      (ap (λ n. bytes ++ take n (drop j xs)) (omega arith))

-- Reading back what was written.
pub between-written_self :
    (xs : List ℕ) (i : ℕ) (bytes : List ℕ)
    → i + length bytes ≤ length xs
    → between i (i + length bytes) (written xs i bytes) ≡ bytes
between-written_self xs i bytes h =
    let e : i + length bytes - (i + length bytes) ≡ 0 = omega arith in
    between-written_front xs i (i + length bytes) (i + length bytes) bytes refl (omega arith) h
    ∙ rw e (append-nil bytes)

pub resize-some :
    (xs : List ℕ) (n : ℕ)
    → n ≤ max_size
    → length xs ≤ n
    → resize xs n ≡ some (xs ++ replicate (n - length xs) 0)
unfolding resize
resize-some xs n h l = rw (le→leb _ _ h, take-all n xs l)

-- The bytes before the end of a list are those of a longer one.
pub between-append :
    (xs ys : List ℕ) (i j : ℕ) → i ≤ j → j ≤ length xs → between i j (xs ++ ys) ≡ between i j xs
between-append xs ys i j hij h =
    rw (drop-append_le i xs ys (omega arith))
      (take-append_le (j - i) (drop i xs) ys (omega (arith, length-drop i xs)))
