-- ===== src/Beacon/Numbers/Printed.antt =====
-- Uint64Str and Int64Str on numbers that are printed in decimal, with or without quotes.
use pauli.Common.{
  ℕ, zero, suc, ◌+◌, ◌-◌, ◌/◌, ◌%◌, ◌^◌, ◌≤◌, ◌<◌, ◌≡◌, refl, ap, ◌∙◌, inl, inr, false, some, [],
  ◌∷◌, ◌++◌, arith, ltb, le→ltb, lt→ltb, ltb→lt, Bool-cases, ◌==◌,
}
use pauli.Common.Int.{ℤ, pos, negsuc, FitsI64}
use pauli.Text.{Text, decimal, format_uint, digits_value, parse_uint}
use pauli.Text.Laws.{parse_uint-format_uint, digits_value-format_uint}
use pauli.Text.Ints.{atoi, format_int}
use pauli.Text.Suffixes.{trim_suffix-append, has_suffix-append}
use pauli.Beacon.Numbers.{quote, unquoted, unmarshal_uint64, unmarshal_int64}

-- A text that starts with a digit.
StartsDigit : Text → Type 0
StartsDigit [] = ⊥
StartsDigit (c ∷ s) = (48 ≤ c) × (c ≤ 57)

decimal-StartsDigit :
    (fuel n c : ℕ) (acc : Text) → 48 ≤ c → c ≤ 57 → StartsDigit (decimal fuel n (c ∷ acc))
unfolding decimal StartsDigit
decimal-StartsDigit zero n c acc low high = (low, high)
decimal-StartsDigit (suc fuel) n c acc low high = elim (Bool-cases (ltb n 10)) [
  | inl small ↦ rw small (omega arith, omega (arith, ltb→lt n 10 small))
  | inr large ↦
      rw large
        (decimal-StartsDigit fuel (n / 10) (48 + n % 10) (c ∷ acc) (omega arith) (omega arith))
]

format_uint-StartsDigit : (n : ℕ) → StartsDigit (format_uint n)
unfolding format_uint decimal StartsDigit
format_uint-StartsDigit n = elim (Bool-cases (ltb n 10)) [
  | inl small ↦ rw small (omega arith, omega (arith, ltb→lt n 10 small))
  | inr large ↦
      rw large (decimal-StartsDigit 19 (n / 10) (48 + n % 10) [] (omega arith) (omega arith))
]

atoi-digits :
    (t : Text) (n : ℕ)
    → StartsDigit t
    → digits_value 0 t ≡ some n
    → n < 2 ^ 63
    → atoi t ≡ some (pos n)
unfolding atoi StartsDigit
atoi-digits [] n first value small = absurd first
atoi-digits (c ∷ s) n first value small =
    let minus : (c == 45) ≡ false = ground (arith, first) in
    let plus : (c == 43) ≡ false = ground (arith, first) in
    rw minus (rw plus (rw value (rw (lt→ltb n (2 ^ 63) small) refl)))

atoi-minus :
    (t : Text) (n : ℕ)
    → StartsDigit t
    → digits_value 0 t ≡ some (suc n)
    → n < 2 ^ 63
    → atoi (b'-' ∷ t) ≡ some (negsuc n)
unfolding atoi StartsDigit
atoi-minus [] n first value small = absurd first
atoi-minus (c ∷ s) n first value small =
    let positive : (suc n == 0) ≡ false = ground arith in
    let back : suc n - 1 ≡ n = omega arith in
    rw value
      (rw (le→ltb (2 ^ 63) (suc n) (omega arith)) (rw positive (ap (λ k. some (negsuc k)) back)))

atoi-format_int : (a : ℤ) → FitsI64 a → atoi (format_int a) ≡ some a
atoi-format_int (pos n) fits =
    atoi-digits (format_uint n) n (format_uint-StartsDigit n)
      (digits_value-format_uint n (omega arith)) fits
atoi-format_int (negsuc n) fits =
    atoi-minus (format_uint (suc n)) n (format_uint-StartsDigit (suc n))
      (digits_value-format_uint (suc n) (omega arith)) fits

-- A text that does not start with a quote stays; one in quotes loses them.
unquoted-bare : (c : ℕ) (s : Text) → (c == 34) ≡ false → unquoted (c ∷ s) ≡ c ∷ s
unfolding unquoted
unquoted-bare c s h = rw h refl

unquoted-quoted : (t : Text) → unquoted (b'"' ∷ (t ++ quote)) ≡ t
unfolding unquoted
unquoted-quoted t = rw (has_suffix-append t quote (λ e. cc)) (trim_suffix-append t quote (λ e. cc))

unquoted-digits : (t : Text) → StartsDigit t → unquoted t ≡ t
unfolding StartsDigit
unquoted-digits [] first = absurd first
unquoted-digits (c ∷ s) first = unquoted-bare c s (ground (arith, first))

unquoted-format_int : (a : ℤ) → unquoted (format_int a) ≡ format_int a
unquoted-format_int (pos n) = unquoted-digits (format_uint n) (format_uint-StartsDigit n)
unquoted-format_int (negsuc n) = unquoted-bare b'-' (format_uint (suc n)) refl

-- A uint64 that is printed in decimal is read back, with quotes around it and without.
pub unmarshal_uint64-format_uint :
    (n : ℕ)
    → n < 2 ^ 64
    → (unmarshal_uint64 (b'"' ∷ (format_uint n ++ quote)) ≡ some n)
      × (unmarshal_uint64 (format_uint n) ≡ some n)
unfolding unmarshal_uint64
unmarshal_uint64-format_uint n h = (
  ap parse_uint (unquoted-quoted (format_uint n)) ∙ parse_uint-format_uint n h,
  ap parse_uint (unquoted-digits (format_uint n) (format_uint-StartsDigit n))
      ∙ parse_uint-format_uint n h,
)

-- An int64 that is printed in decimal is read back, with quotes around it and without.
pub unmarshal_int64-format_int :
    (a : ℤ)
    → FitsI64 a
    → (unmarshal_int64 (b'"' ∷ (format_int a ++ quote)) ≡ some a)
      × (unmarshal_int64 (format_int a) ≡ some a)
unfolding unmarshal_int64
unmarshal_int64-format_int a h = (
  ap atoi (unquoted-quoted (format_int a)) ∙ atoi-format_int a h,
  ap atoi (unquoted-format_int a) ∙ atoi-format_int a h,
)
