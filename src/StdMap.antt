-- ===== src/StdMap.antt =====
-- `std::map` from strings to strings, as the list of its entries in the order of the keys.
pub mod Laws
use conex.Prelude.{
  Ordering, Option, none, some, List, [], ◌∷◌, if◌then◌else◌, Bytes, bytes_eq, compare_bytes,
}

abbrev pub Entries : Type 0
Entries = List (Bytes × Bytes)

-- `map[key] = value`
unfoldable pub assign : Bytes → Bytes → Entries → Entries
assign key value [] = (key, value) ∷ []
assign key value ((k, v) ∷ rest) = elim (compare_bytes key k) [
  | Ordering.lt ↦ (key, value) ∷ (k, v) ∷ rest
  | Ordering.eq ↦ (key, value) ∷ rest
  | Ordering.gt ↦ (k, v) ∷ assign key value rest
]

-- `map.find(key)`
unfoldable pub find : Bytes → Entries → Option Bytes
find key [] = none
find key ((k, v) ∷ rest) = let later = find key rest in if bytes_eq k key then some v else later
