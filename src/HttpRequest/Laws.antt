-- ===== src/HttpRequest/Laws.antt =====
-- The setters of a request that do more than store.
use conex.Prelude.{
  suc, ◌≡◌, refl, sym, ap, ◌∙◌, subst, ◌≢◌, inl, inr, true, false, [], ◌∷◌, ◌++◌, reverse,
  reverse-append, reverse-reverse, arith, if◌then◌else◌, Bool-cases, length, take, drop, take-all,
  take-append_le, drop-past, Bytes, codes, bytes_eq, bytes_eq→eq,
}
use conex.StdMap.Laws.{find-assign}
use conex.HttpRequest.{
  Method, HttpRequest, method_of, method_string, is_space, skip_spaces, trim_end, add_header,
  get_header, invalid,
}

-- Each name that `methodString` gives is the one that `setMethod` reads as that method.
pub method_of-method_string : (m : Method) → method_of (method_string m) ≡ m
unfolding method_of method_string bytes_eq
method_of-method_string invalid = refl
method_of-method_string _ = refl

-- A name that `setMethod` recognises is the one that `methodString` gives back.
pub method_string-method_of :
    (name : Bytes) → method_of name ≢ invalid → method_string (method_of name) ≡ name
unfolding method_of method_string
method_string-method_of name h = ground (
  arith,
  bytes_eq→eq name (codes "GET"),
  bytes_eq→eq name (codes "POST"),
  bytes_eq→eq name (codes "HEAD"),
  bytes_eq→eq name (codes "PUT"),
  bytes_eq→eq name (codes "DELETE"),
)

-- Spaces only.
abbrev pub AllSpaces : Bytes → Type 0
AllSpaces [] = Unit {0}
AllSpaces (c ∷ cs) = (is_space c ≡ true) × AllSpaces cs

-- No space at the front.
abbrev pub NoLeadingSpace : Bytes → Type 0
NoLeadingSpace [] = Unit {0}
NoLeadingSpace (c ∷ cs) = is_space c ≡ false

record Skipped (xs rest : Bytes) : Type 0 where
  spaces : Bytes
  all_spaces : AllSpaces spaces
  splits : xs ≡ spaces ++ rest
  no_leading : NoLeadingSpace rest

skip_spaces-Skipped : (xs : Bytes) → Skipped xs (skip_spaces xs)
unfolding skip_spaces
skip_spaces-Skipped [] = record { spaces = []; all_spaces = tt; splits = refl; no_leading = tt }
skip_spaces-Skipped (c ∷ cs) =
    let r = skip_spaces-Skipped cs in
    elim (Bool-cases (is_space c)) [
      | inl t ↦ rw t (record {
        spaces = c ∷ r.spaces;
        all_spaces = (t, r.all_spaces);
        splits = ap (◌∷◌ c) r.splits;
        no_leading = r.no_leading;
      })
      | inr t ↦ rw t (record { spaces = []; all_spaces = tt; splits = refl; no_leading = t })
    ]

AllSpaces-append : (xs ys : Bytes) → AllSpaces xs → AllSpaces ys → AllSpaces (xs ++ ys)
AllSpaces-append [] ys hx hy = hy
AllSpaces-append (x ∷ xs) ys hx hy = (hx.0, AllSpaces-append xs ys hx.1 hy)

AllSpaces-reverse : (xs : Bytes) → AllSpaces xs → AllSpaces (reverse xs)
AllSpaces-reverse [] h = tt
AllSpaces-reverse (x ∷ xs) h =
    rw (reverse-append (x ∷ []) xs)
      (AllSpaces-append (reverse xs) (x ∷ []) (AllSpaces-reverse xs h.1) (h.0, tt))

NoLeadingSpace-append : (xs ys : Bytes) → NoLeadingSpace (xs ++ ys) → NoLeadingSpace xs
NoLeadingSpace-append [] ys h = tt
NoLeadingSpace-append (x ∷ xs) ys h = h

-- What a text is without the spaces around it.
pub record Trimmed (text value : Bytes) : Type 0 where
  pub before : Bytes
  pub after : Bytes
  pub splits : text ≡ before ++ (value ++ after)
  pub spaces_before : AllSpaces before
  pub spaces_after : AllSpaces after
  pub no_leading : NoLeadingSpace value
  pub no_trailing : NoLeadingSpace (reverse value)

-- The two loops of `addHeader` take the spaces off both ends of the value, and only these.
pub trim_lem : (text : Bytes) → Trimmed text (trim_end (skip_spaces text))
unfolding trim_end
trim_lem text =
    let f = skip_spaces-Skipped text in
    let rest = skip_spaces text in
    let l = skip_spaces-Skipped (reverse rest) in
    let value = reverse (skip_spaces (reverse rest)) in
    let e : rest ≡ value ++ reverse l.spaces =
      sym (reverse-reverse rest)
      ∙ ap reverse l.splits
      ∙ reverse-append l.spaces (skip_spaces (reverse rest)) in
    record {
      before = f.spaces;
      after = reverse l.spaces;
      splits = f.splits ∙ ap (λ xs. f.spaces ++ xs) e;
      spaces_before = f.all_spaces;
      spaces_after = AllSpaces-reverse l.spaces l.all_spaces;
      no_leading =
          NoLeadingSpace-append value (reverse l.spaces) (subst NoLeadingSpace e f.no_leading);
      no_trailing = rw (reverse-reverse (skip_spaces (reverse rest))) l.no_leading;
    }

-- After `addHeader` on a line "field:text" the header reads as the trimmed text, and every other
-- header reads as before; the other fields of the request are kept.
pub add_header_lem :
    (field text k : Bytes) (r : HttpRequest)
    → let q = add_header (field ++ b':' ∷ text) (length field) r in
      (get_header k q ≡ (if bytes_eq field k then trim_end (skip_spaces text) else get_header k r))
      × (q ≡ record r { headers = q.headers })
unfolding add_header get_header
add_header_lem field text k r =
    let value = trim_end (skip_spaces text) in
    let e : take (length field) (field ++ b':' ∷ text) ≡ field =
      take-append_le (length field) field (b':' ∷ text) (omega arith)
      ∙ take-all (length field) field (omega arith) in
    let d : drop (suc (length field)) (field ++ b':' ∷ text) ≡ text = drop-past field b':' text in
    (rw (e, d) (ground (arith, find-assign field value k r.headers)), refl)
