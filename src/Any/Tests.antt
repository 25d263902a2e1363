-- ===== src/Any/Tests.antt =====
-- Values of two types in an `any`.
use conex.Prelude.{ℕ, ◌≡◌, Bool, true, false, none, some}
use conex.Any.{DataHolder, Heap, empty, copy, assign, make_any, any_cast, write_cast}
use conex.Any.Cast.{Holds, share_lem}

-- The codes of `int` and `bool`.
abbrev Values : Bool → Type 0
Values true = ℕ
Values false = Bool

abbrev no_heap : Heap Bool Values
no_heap = record { holders = λ p. none; next = 1 }

share_lem_example :
    let (a, h') = make_any Bool Values true 7 no_heap in
    let b = assign empty a in
    Holds Bool Values true 7 a h'
    × Holds Bool Values true 7 b h'
    × Holds Bool Values true 7 (copy a) h'
    × ((same_type : (d : DataHolder Bool Values)
          → any_cast Bool Values b h' ≡ some d
          → d.type_of ≡ true)
        × (h'' : Heap Bool Values) × (write_cast Bool Values true 9 b h' same_type ≡ some h'')
        × Holds Bool Values true 9 a h''
        × Holds Bool Values true 9 b h'')
share_lem_example = share_lem Bool Values true 7 9 empty no_heap
