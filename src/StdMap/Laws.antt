-- ===== src/StdMap/Laws.antt =====
-- A map of strings: what is found after an assignment, and the order of the entries.
use conex.Prelude.{
  Ordering, ◌≡◌, refl, some, [], ◌∷◌, arith, if◌then◌else◌, Bytes, bytes_eq, bytes_eq_iff,
  compare_bytes, compare_bytes_refl, compare_bytes-eq, compare_bytes-gt,
}
use conex.StdMap.{Entries, assign, find}

-- An assignment is found under its key, and changes nothing under another.
pub find-assign :
    (key value k : Bytes) (entries : Entries)
    → find k (assign key value entries) ≡ (if bytes_eq key k then some value else find k entries)
unfolding find assign
find-assign key value k [] = refl
find-assign key value k ((j, v) ∷ rest) = ground (
  arith,
  compare_bytes-eq key j,
  compare_bytes_refl key,
  bytes_eq_iff key k,
  bytes_eq_iff j k,
  find-assign key value k rest,
)

-- The keys rise, above `key`.
abbrev pub Above : Bytes → Entries → Type 0
Above key [] = Unit {0}
Above key ((k, v) ∷ rest) = (compare_bytes key k ≡ Ordering.lt) × Above k rest

abbrev pub IsSorted : Entries → Type 0
IsSorted [] = Unit {0}
IsSorted ((k, v) ∷ rest) = Above k rest

Above-assign :
    (low key value : Bytes) (entries : Entries)
    → compare_bytes low key ≡ Ordering.lt
    → Above low entries
    → Above low (assign key value entries)
unfolding assign
Above-assign low key value [] h a = (h, tt)
Above-assign low key value ((k, v) ∷ rest) h a =
    ground (arith, compare_bytes-eq key k, compare_bytes-gt key k, Above-assign k key value rest)

-- An assignment keeps the keys rising, hence distinct.
pub assign-IsSorted :
    (key value : Bytes) (entries : Entries) → IsSorted entries → IsSorted (assign key value entries)
unfolding assign
assign-IsSorted key value [] a = tt
assign-IsSorted key value ((k, v) ∷ rest) a =
    ground (arith, compare_bytes-eq key k, compare_bytes-gt key k, Above-assign k key value rest)
