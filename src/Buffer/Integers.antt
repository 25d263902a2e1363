-- ===== src/Buffer/Integers.antt =====
-- Integers in network order: what is appended or prepended is read back.
use native.Mathlib.Nat.{pow-suc}
use conex.Prelude.{
  ℕ, zero, suc, ◌+◌, ◌*◌, ◌/◌, ◌%◌, ◌^◌, ◌≤◌, ◌<◌, ◌≡◌, refl, sym, ap, ◌∙◌, some, List, [], ◌∷◌,
  ◌++◌, append-nil, arith, le→leb, ◌>>=◌, length, take, drop, length-append, take-all, drop-all,
  take-append_le, drop-append_le,
}
use conex.Memory.{max_size}
use conex.Memory.Laws.{read_at-some}
use conex.Buffer.{
  Buffer, readable_bytes, prependable_bytes, to_big_endian, of_big_endian, append_int, prepend_int,
  peek_int, read_int,
}
use conex.Buffer.Inv.{IsValid, contents, length-contents}
use conex.Buffer.Append.{append_lem}
use conex.Buffer.Retrieve.{prepend_lem, retrieve_lem, take-contents}

of_big_endian-append :
    (acc c : ℕ) (xs : List ℕ) → of_big_endian acc (xs ++ c ∷ []) ≡ of_big_endian acc xs * 256 + c
unfolding of_big_endian
of_big_endian-append acc c [] = refl
of_big_endian-append acc c (x ∷ xs) = of_big_endian-append (acc * 256 + x) c xs

length-to_big_endian : (n x : ℕ) → length (to_big_endian n x) ≡ n
unfolding to_big_endian
length-to_big_endian zero x = refl
length-to_big_endian (suc n) x = omega (
  arith,
  length-append (to_big_endian n (x / 256)) (x % 256 ∷ []),
  length-to_big_endian n (x / 256),
)

of_big_endian-to_big_endian : (n x : ℕ) → x < 256 ^ n → of_big_endian 0 (to_big_endian n x) ≡ x
unfolding to_big_endian of_big_endian
of_big_endian-to_big_endian zero x h = omega arith
of_big_endian-to_big_endian (suc n) x h =
    let top : x / 256 < 256 ^ n = omega (arith, pow-suc 256 n) in
    rw
      (
        of_big_endian-append 0 (x % 256) (to_big_endian n (x / 256)),
        of_big_endian-to_big_endian n (x / 256) top,
      )
      (omega arith)

-- Reading an integer takes the bytes of its encoding off the front, and returns it.
pub read_int_lem :
    (n x : ℕ) (rest : List ℕ) {b : Buffer}
    → IsValid b
    → x < 256 ^ n
    → contents b ≡ to_big_endian n x ++ rest
    → (b' : Buffer) × (read_int n b ≡ some (x, b')) × IsValid b' × (contents b' ≡ rest)
unfolding read_int peek_int
read_int_lem n x rest {b} v h e =
    let size = length-to_big_endian n x in
    let enough : n ≤ readable_bytes b =
      omega (arith, length-contents v, ap length e, length-append (to_big_endian n x) rest) in
    let r = retrieve_lem n v enough in
    let front : take n (drop b.reader_index b.buffer) ≡ to_big_endian n x =
      take-contents n v enough
      ∙ ap (take n) e
      ∙ take-append_le n (to_big_endian n x) rest (omega arith)
      ∙ take-all n (to_big_endian n x) (omega arith) in
    let back : drop n (contents b) ≡ rest =
      ap (drop n) e
      ∙ drop-append_le n (to_big_endian n x) rest (omega arith)
      ∙ rw (drop-all n (to_big_endian n x) (omega arith)) in
    (
      r.result,
      rw (
        le→leb n (readable_bytes b) enough,
        read_at-some b.buffer b.reader_index n (omega arith),
        front,
        of_big_endian-to_big_endian n x h,
        r.returns,
      ),
      r.valid,
      r.holds ∙ back,
    )

-- An integer of n bytes that is appended to an empty buffer is read back from it, and leaves it
-- empty.
pub read_int-append_int :
    (n x : ℕ) {b : Buffer}
    → IsValid b
    → contents b ≡ []
    → x < 256 ^ n
    → b.writer_index + n ≤ max_size
    → (b' : Buffer) × ((do q ← append_int n x b; read_int n q) ≡ some (x, b'))
      × IsValid b'
      × (contents b' ≡ [])
unfolding append_int
read_int-append_int n x {b} v e h room =
    let a = append_lem (to_big_endian n x) v (omega (arith, length-to_big_endian n x)) in
    let (b', s, w, k) =
      read_int_lem n x [] a.valid h
        (a.holds ∙ ap (λ xs. xs ++ to_big_endian n x) e ∙ sym (append-nil (to_big_endian n x))) in
    (b', rw a.returns s, w, k)

-- An integer that is prepended, as for a length in front of a message, is the first thing read,
-- and the bytes behind it are as they were.
pub read_int-prepend_int :
    (n x : ℕ) {b : Buffer}
    → IsValid b
    → x < 256 ^ n
    → n ≤ prependable_bytes b
    → (b' : Buffer) × ((do q ← prepend_int n x b; read_int n q) ≡ some (x, b'))
      × IsValid b'
      × (contents b' ≡ contents b)
unfolding prepend_int
read_int-prepend_int n x {b} v h room =
    let a = prepend_lem (to_big_endian n x) v (omega (arith, length-to_big_endian n x)) in
    let (b', s, w, k) = read_int_lem n x (contents b) a.valid h a.holds in
    (b', rw a.returns s, w, k)
