-- ===== src/Any/Cast.antt =====
-- What a cast gives.
use conex.Prelude.{◌≡◌, refl, sym, ◌∙◌, some, ==_refl, >>=-eq-some}
use mathlib.Core.Path.{subst_refl}
use conex.Any.{
  Any, DataHolder, Heap, copy, move, move_assign, assign, put, make_any, type_id, any_cast, read_as,
  write_cast,
}

module _ (U : Type 0) (El : U → Type 0) where
  -- The value of that type is there, and `type` tells the type.
  pub record Holds (t : U) (x : El t) (a : Any) (h : Heap U El) : Type 0 where
    pub casts : any_cast U El a h ≡ some (record { type_of = t; value = x })
    pub reads : read_as U El t (record { type_of = t; value = x }) refl ≡ x
    pub type_is : type_id U El a h ≡ some t

  holds :
      (t : U) (x : El t) (a : Any) (h : Heap U El)
      → any_cast U El a h ≡ some (record { type_of = t; value = x })
      → Holds t x a h
  unfolding any_cast type_id
  holds t x a h e = record {
    casts = e;
    reads = subst_refl El x;
    type_is = let (p, there, found) = >>=-eq-some a.holder _ e in rw (there, found) refl;
  }

  -- An object that is made from a value holds it, and so do its copies and what it is assigned to. A
  -- value of the type that is written through one of them is held by the others too: they share one
  -- value.
  pub share_lem :
      (t : U) (x y : El t) (old : Any) (h : Heap U El)
      → let (a, h') = make_any U El t x h in
        let b = assign old a in
        Holds t x a h'
        × Holds t x b h'
        × Holds t x (copy a) h'
        × ((same_type : (d : DataHolder U El) → any_cast U El b h' ≡ some d → d.type_of ≡ t)
            × (h'' : Heap U El) × (write_cast U El t y b h' same_type ≡ some h'')
            × Holds t y a h''
            × Holds t y b h'')
  unfolding any_cast make_any assign copy move move_assign write_cast
  share_lem t x y old h =
      let (a, h') = make_any U El t x h in
      let made = holds t x a h' (rw (==_refl h.next) refl) in
      let h'' = put U El h.next (record { type_of = t; value = y }) h' in
      let written = holds t y a h'' (rw (==_refl h.next) refl) in
      let same_type : (d : DataHolder U El) → any_cast U El a h' ≡ some d → d.type_of ≡ t =
        λ d e. let same = sym made.casts ∙ e in cc in
      (made, made, made, (same_type, h'', rw (==_refl h.next) refl, written, written))
