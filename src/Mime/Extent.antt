-- ===== src/Mime/Extent.antt =====
-- The extension of a path.
use conex.Prelude.{
  ℕ, zero, suc, ◌-◌, ◌≤◌, ◌<◌, ◌≡◌, refl, ap, ◌∙◌, ◌≢◌, inl, inr, false, some, [], ◌∷◌, ◌++◌, arith,
  ltb, ltb→lt, ltb-false→le, ==_false, Bool-cases, length, drop, length-append, drop-past, Bytes,
}
use conex.Mime.{byte_at, is_dot, last_dot, get_extent}

-- No dot among the bytes.
abbrev pub NoDot : Bytes → Type 0
NoDot [] = Unit {0}
NoDot (c ∷ cs) = (c ≢ b'.') × NoDot cs

byte_at-past : (xs : Bytes) (c : ℕ) (ys : Bytes) → byte_at (length xs) (xs ++ c ∷ ys) ≡ some c
byte_at-past [] c ys = refl
byte_at-past (x ∷ xs) c ys = byte_at-past xs c ys

-- Going down over bytes without a dot.
last_dot-NoDot :
    (i : ℕ) (xs : Bytes) (j : ℕ)
    → ((k : ℕ) → j ≤ k → k < i → is_dot (byte_at k xs) ≡ false)
    → j ≤ i
    → last_dot i xs ≡ last_dot j xs
unfolding last_dot
last_dot-NoDot zero xs j h le = let e : zero ≡ j = omega arith in ap (λ k. last_dot k xs) e
last_dot-NoDot (suc i) xs j h le = elim (Bool-cases (ltb i j)) [
  | inl t ↦ let e : suc i ≡ j = omega (arith, ltb→lt _ _ t) in ap (λ k. last_dot k xs) e
  | inr t ↦
      let g = ltb-false→le _ _ t in
      rw (last_dot, h i g (omega arith)) (last_dot-NoDot i xs j (λ k a b. h k a (omega arith)) g)
]

byte_at-behind :
    (xs : Bytes) (c : ℕ) (ys : Bytes) (k : ℕ)
    → suc (length xs) ≤ k
    → byte_at k (xs ++ c ∷ ys) ≡ byte_at (k - suc (length xs)) ys
byte_at-behind xs c ys zero h = absurd (omega arith)
byte_at-behind [] c ys (suc k) h = let e : k ≡ suc k - 1 = omega arith in ap (λ n. byte_at n ys) e
byte_at-behind (x ∷ xs) c ys (suc k) h =
    let e : k - suc (length xs) ≡ suc k - suc (suc (length xs)) = omega arith in
    byte_at-behind xs c ys k (omega arith) ∙ ap (λ n. byte_at n ys) e

NoDot-at : (ys : Bytes) (k : ℕ) → NoDot ys → is_dot (byte_at k ys) ≡ false
NoDot-at [] k h = refl
NoDot-at (c ∷ cs) zero h = ==_false c b'.' h.0
NoDot-at (c ∷ cs) (suc k) h = NoDot-at cs k h.1

last_dot_lem :
    (stem ext : Bytes)
    → NoDot ext
    → let path = stem ++ (b'.' ∷ ext) in last_dot (length path) path ≡ suc (length stem)
unfolding last_dot
last_dot_lem stem ext h =
    let path = stem ++ (b'.' ∷ ext) in
    let n = length-append stem (b'.' ∷ ext) in
    last_dot-NoDot (length path) path (suc (length stem))
      (λ k a b. rw (byte_at-behind stem b'.' ext k a) (NoDot-at ext (k - suc (length stem)) h))
      (omega arith)
    ∙ rw (last_dot, byte_at-past stem b'.' ext) refl

-- The extension of "stem.ext", if no dot stands in ext, is ext, whatever the stem. Of a path
-- without a dot it is the whole path.
pub get_extent_lem :
    (stem ext : Bytes)
    → NoDot ext
    → (get_extent (stem ++ (b'.' ∷ ext)) ≡ ext) × (get_extent ext ≡ ext)
unfolding get_extent last_dot
get_extent_lem stem ext h = (
  ap (λ d. drop d (stem ++ (b'.' ∷ ext))) (last_dot_lem stem ext h) ∙ drop-past stem b'.' ext,
  ap (λ d. drop d ext)
      (last_dot-NoDot (length ext) ext 0 (λ k a b. NoDot-at ext k h) (omega arith)),
)
