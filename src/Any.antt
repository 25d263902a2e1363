-- ===== src/Any.antt =====
-- any.h: a value of any type. The types that C++ code puts into it are the codes of a universe. The
-- holders are objects of a heap, which every copy points to; a use of a null pointer is undefined
-- and `none`. A cast does not look at the type: to use the value as one of another type is
-- undefined, so that the types agree is an argument of the use.
pub mod Cast
mod Tests
use conex.Prelude.{ℕ, suc, ◌≡◌, subst, Option, none, some, ◌==◌, if◌then◌else◌, ◌>>=◌, ◌>>◌}

-- `data_`, null at `none`.
pub record Any : Type 0 where
  pub holder : Option ℕ

-- The default constructor, the copies and the moves, which leave a null pointer behind.
abbrev pub empty : Any
empty = record { holder = none }

unfoldable pub copy : Any → Any
copy other = record { holder = other.holder }

unfoldable pub move : Any → Any × Any
move other = (record { holder = other.holder }, empty)

-- `operator=(any&&)` on another object, as the result and what is left of `other`.
unfoldable pub move_assign : Any → Any → Any × Any
move_assign this other = (record { holder = other.holder }, empty)

-- `operator=(const any&)`: a copy is swapped with the object, and `std::swap` moves three times.
unfoldable pub assign : Any → Any → Any
unfolding copy move move_assign
assign this other =
    let tmp = copy other in
    let (t, this1) = move this in
    let (this2, tmp1) = move_assign this1 tmp in let (tmp2, t1) = move_assign tmp1 t in this2

module _ (U : Type 0) (El : U → Type 0) where
  pub record DataHolder : Type 0 where
    pub type_of : U
    pub value : El type_of

  pub record Heap : Type 0 where
    pub holders : ℕ → Option DataHolder
    pub next : ℕ

  abbrev pub put : ℕ → DataHolder → Heap → Heap
  put p d h = record h { holders = λ q. if q == p then some d else h.holders q }

  -- The constructor on a value.
  unfoldable pub make_any : (t : U) → El t → Heap → Any × Heap
  make_any t x h = (
    record { holder = some h.next },
    record (put h.next (record { type_of = t; value = x }) h) { next = suc h.next },
  )

  -- `type`: `typeid(void)` is `none`.
  unfoldable pub type_id : Any → Heap → Option U
  type_id a h = do p ← a.holder; d ← h.holders p; some d.type_of

  -- `any_cast` on a pointer: the holder's `data_`, whatever the type asked for.
  unfoldable pub any_cast : Any → Heap → Option DataHolder
  any_cast a h = do p ← a.holder; h.holders p

  -- What the pointer is used for: the value is read as one of its type, or written.
  abbrev pub read_as : (t : U) (d : DataHolder) → d.type_of ≡ t → El t
  read_as t d e = subst El e d.value

  unfoldable pub write_cast :
      (t : U)
      → El t
      → (a : Any) (h : Heap) → ((d : DataHolder) → any_cast a h ≡ some d → d.type_of ≡ t)
      → Option Heap
  write_cast t x a h same_type = do
    p ← a.holder
    d ← h.holders p
    some (put p (record { type_of = t; value = x }) h)
