-- ===== src/Decimal.antt =====
-- Decimal text, as `snprintf` and the logger's `convert` write it, and its value.
use conex.Prelude.{
  ℕ, zero, suc, ◌+◌, ◌-◌, ◌*◌, ◌/◌, ◌%◌, ◌^◌, ◌≤◌, ◌<◌, ◌≡◌, refl, ap, ◌∙◌, inl, inr, true, false,
  [], ◌∷◌, ◌++◌, reverse, arith, ◌==◌, ==_iff, Bool-cases, length, length-append, Bytes,
}
use mathlib.Core.List.{reverse-cons}
use native.Mathlib.Nat.{pow-suc}

-- The digits of `n`, the last one first; the first number is fuel.
unfoldable pub digits : ℕ → ℕ → Bytes
digits zero n = []
digits (suc fuel) n =
    (b'0' + n % 10) ∷ elim (n / 10 == 0) [ true ↦ [] | false ↦ digits fuel (n / 10) ]

unfoldable pub decimal : ℕ → Bytes
unfolding digits
decimal n = reverse (digits (suc n) n)

-- The number that a text of digits stands for.
abbrev pub read_digits : ℕ → Bytes → ℕ
read_digits acc [] = acc
read_digits acc (c ∷ cs) = read_digits (acc * 10 + (c - b'0')) cs

abbrev value : Bytes → ℕ
value [] = 0
value (c ∷ cs) = (c - b'0') + 10 * value cs

value-digits : (fuel n : ℕ) → n < fuel → value (digits fuel n) ≡ n
unfolding digits
value-digits zero n h = absurd (omega arith)
value-digits (suc fuel) n h = elim (Bool-cases (n / 10 == 0)) [
  | inl e ↦ rw e (omega (arith, (==_iff (n / 10) 0).0 e))
  | inr e ↦ rw e (omega (arith, value-digits fuel (n / 10) (bound e)))
]
  where
    bound : (n / 10 == 0) ≡ false → n / 10 < fuel
    bound e = ground arith

read_digits-append :
    (acc c : ℕ) (cs : Bytes) → read_digits acc (cs ++ c ∷ []) ≡ read_digits acc cs * 10 + (c - b'0')
read_digits-append acc c [] = refl
read_digits-append acc c (d ∷ ds) = read_digits-append (acc * 10 + (d - b'0')) c ds

read_digits-reverse : (cs : Bytes) → read_digits 0 (reverse cs) ≡ value cs
read_digits-reverse [] = refl
read_digits-reverse (c ∷ cs) =
    rw (reverse-cons c cs, read_digits-append 0 c (reverse cs), read_digits-reverse cs)
      (omega arith)

-- Decimal text stands for its number.
pub read_digits-decimal : (n : ℕ) → read_digits 0 (decimal n) ≡ n
unfolding decimal
read_digits-decimal n =
    read_digits-reverse (digits (suc n) n) ∙ value-digits (suc n) n (omega arith)

-- Digits only.
abbrev pub AreDigits : Bytes → Type 0
AreDigits [] = Unit {0}
AreDigits (c ∷ cs) = (b'0' ≤ c) × (c ≤ b'9') × AreDigits cs

-- A number of k digits has a text of at most k bytes.
pub length-digits : (fuel n k : ℕ) → n < 10 ^ k → 0 < k → length (digits fuel n) ≤ k
unfolding digits
length-digits zero n k h p = omega arith
length-digits (suc fuel) n zero h p = absurd (omega arith)
length-digits (suc fuel) n (suc zero) h p = ground arith
length-digits (suc fuel) n (suc (suc k)) h p = elim (Bool-cases (n / 10 == 0)) [
  | inl e ↦ rw e (omega arith)
  | inr e ↦ rw e (
      omega (
        arith,
        length-digits fuel (n / 10) (suc k) (omega (arith, pow-suc 10 (suc k))) (omega arith),
      ))
]

pub length-reverse : (cs : Bytes) → length (reverse cs) ≡ length cs
length-reverse [] = refl
length-reverse (c ∷ cs) =
    omega
      (arith, ap length (reverse-cons c cs), length-append (reverse cs) (c ∷ []), length-reverse cs)

pub length-decimal : (n k : ℕ) → n < 10 ^ k → 0 < k → length (decimal n) ≤ k
unfolding decimal
length-decimal n k h p =
    omega (arith, length-reverse (digits (suc n) n), length-digits (suc n) n k h p)
