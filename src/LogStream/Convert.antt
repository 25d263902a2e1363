-- ===== src/LogStream/Convert.antt =====
-- `convert` against the decimal text of a number.
use conex.Prelude.{
  ℕ, zero, suc, ◌+◌, ◌/◌, ◌%◌, ◌<◌, ◌≡◌, refl, ap, inl, inr, some, [], ◌∷◌, ◌++◌, reverse,
  reverse-append, append-nil, arith, ◌==◌, if◌then◌else◌, Bool-cases, Bytes, ℤ, neg, magnitude,
  is_negative, quotient, remainder, magnitude-neg, pos, negsuc,
}
use conex.Decimal.{digits, decimal}
use conex.LogStream.{zero_at, convert_loop, convert}

-- Both sides of the digit table agree with the decimal digits.
zero_at-pos : (n : ℕ) → n < 10 → zero_at (pos n) ≡ some (b'0' + n)
unfolding zero_at
zero_at-pos zero h = refl
zero_at-pos (suc zero) h = refl
zero_at-pos (suc (suc zero)) h = refl
zero_at-pos (suc (suc (suc zero))) h = refl
zero_at-pos (suc (suc (suc (suc zero)))) h = refl
zero_at-pos (suc (suc (suc (suc (suc zero))))) h = refl
zero_at-pos (suc (suc (suc (suc (suc (suc zero)))))) h = refl
zero_at-pos (suc (suc (suc (suc (suc (suc (suc zero))))))) h = refl
zero_at-pos (suc (suc (suc (suc (suc (suc (suc (suc zero)))))))) h = refl
zero_at-pos (suc (suc (suc (suc (suc (suc (suc (suc (suc zero))))))))) h = refl
zero_at-pos (suc (suc (suc (suc (suc (suc (suc (suc (suc (suc n)))))))))) h = absurd (omega arith)

zero_at-neg : (n : ℕ) → n < 10 → zero_at (neg n) ≡ some (b'0' + n)
unfolding zero_at
zero_at-neg zero h = refl
zero_at-neg (suc zero) h = refl
zero_at-neg (suc (suc zero)) h = refl
zero_at-neg (suc (suc (suc zero))) h = refl
zero_at-neg (suc (suc (suc (suc zero)))) h = refl
zero_at-neg (suc (suc (suc (suc (suc zero))))) h = refl
zero_at-neg (suc (suc (suc (suc (suc (suc zero)))))) h = refl
zero_at-neg (suc (suc (suc (suc (suc (suc (suc zero))))))) h = refl
zero_at-neg (suc (suc (suc (suc (suc (suc (suc (suc zero)))))))) h = refl
zero_at-neg (suc (suc (suc (suc (suc (suc (suc (suc (suc zero))))))))) h = refl
zero_at-neg (suc (suc (suc (suc (suc (suc (suc (suc (suc (suc n)))))))))) h = absurd (omega arith)

zero_at-remainder : (i : ℤ) → zero_at (remainder i 10) ≡ some (b'0' + magnitude i % 10)
zero_at-remainder (pos n) = zero_at-pos (n % 10) (omega arith)
zero_at-remainder (negsuc n) = zero_at-neg (suc n % 10) (omega arith)

magnitude-quotient : (i : ℤ) → magnitude (quotient i 10) ≡ magnitude i / 10
magnitude-quotient (pos n) = refl
magnitude-quotient (negsuc n) = magnitude-neg (suc n / 10)

-- Enough fuel makes any more of no difference.
digits_fuel : (f g n : ℕ) → n < f → n < g → digits f n ≡ digits g n
unfolding digits
digits_fuel zero g n h k = absurd (omega arith)
digits_fuel (suc f) zero n h k = absurd (omega arith)
digits_fuel (suc f) (suc g) n h k = elim (Bool-cases (n / 10 == 0)) [
  | inl e ↦ rw e refl
  | inr e ↦
      rw e
        (ap (λ ds. (b'0' + n % 10) ∷ ds) (digits_fuel f g (n / 10) (ground arith) (ground arith)))
]

convert_loop_lem :
    (fuel : ℕ) (i : ℤ) → magnitude i < fuel → convert_loop fuel i ≡ some (digits fuel (magnitude i))
unfolding convert_loop digits
convert_loop_lem zero i h = absurd (omega arith)
convert_loop_lem (suc fuel) i h =
    let e = magnitude-quotient i in
    elim (Bool-cases (magnitude i / 10 == 0)) [
      | inl t ↦ rw (zero_at-remainder i, e, t) refl
      | inr t ↦
          let rest = convert_loop_lem fuel (quotient i 10) (ground arith) in
          rw (zero_at-remainder i, e, t, rest, e) refl
    ]

-- The sign of a number in front of its text.
abbrev pub sign : ℤ → Bytes
sign v = if is_negative v then b'-' ∷ [] else []

-- For every integer, the least one of its type included, `convert` ends and writes the sign and
-- the decimal digits of the magnitude.
pub convert_lem : (v : ℤ) → convert v ≡ some (sign v ++ decimal (magnitude v))
unfolding convert decimal
convert_lem (pos n) =
    rw (convert_loop_lem (suc n) (pos n) (omega arith))
      (ap some (ap reverse (append-nil (digits (suc n) n))))
convert_lem (negsuc n) =
    rw (convert_loop_lem (suc (suc n)) (negsuc n) (omega arith))
      (ap some (reverse-append (digits (suc (suc n)) (suc n)) (b'-' ∷ [])))
