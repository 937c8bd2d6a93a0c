-- ===== src/Execution/Hex.antt =====
-- internal/execution/hexbig.go, and how a block's number is printed.
pub mod Printed
use pauli.Common.{
  ℕ, zero, suc, ◌+◌, ◌-◌, ◌*◌, ◌/◌, ◌%◌, Bool, true, false, ◌&&◌, ◌||◌, not, Option, none, some, [],
  ◌∷◌, ◌++◌, leb, ltb, ◌==◌, if◌then◌else◌,
}
use pauli.Common.Int.{ℤ, pos, negsuc}
use pauli.Text.{Text, text, text_eq, is_empty, has_prefix}
use pauli.Text.Cut.{trim_space}
use pauli.Exec.{plain, Result, ok, err}

abbrev pub hex_char : ℕ → ℕ
hex_char d = if ltb d 10 then b'0' + d else b'a' + (d - 10)

-- The digits of `n` before `acc`; `fuel` bounds their number.
unfoldable pub hex_digits : ℕ → ℕ → Text → Text
hex_digits zero n acc = acc
hex_digits (suc fuel) n acc =
    let rest = hex_digits fuel (n / 16) (hex_char (n % 16) ∷ acc) in
    if ltb n 16 then hex_char n ∷ acc else rest

-- fmt.Sprintf("0x%x", n): a uint64 has at most 16 digits.
unfoldable pub format_hex : ℕ → Text
format_hex n = b'0' ∷ b'x' ∷ hex_digits 16 n []

abbrev pub digit_of_hex : ℕ → Option ℕ
digit_of_hex c =
    if leb b'0' c && leb c b'9'
    then some (c - b'0')
    else (if leb b'a' c && leb c b'f'
        then some (c - b'a' + 10)
        else (if leb b'A' c && leb c b'F' then some (c - b'A' + 10) else none))

abbrev pub with_digit : (ℕ → Option ℕ) → Option ℕ → Option ℕ
with_digit rest none = none
with_digit rest (some d) = rest d

unfoldable pub hex_value : ℕ → Text → Option ℕ
hex_value acc [] = some acc
hex_value acc (c ∷ s) = with_digit (λ d. hex_value (acc * 16 + d) s) (digit_of_hex c)

abbrev pub unsigned : Text → Option ℕ
unsigned [] = none
unsigned (c ∷ s) = hex_value 0 (c ∷ s)

abbrev pub positive : Option ℕ → Option ℤ
positive none = none
positive (some n) = some (pos n)

abbrev pub negative : Option ℕ → Option ℤ
negative none = none
negative (some zero) = some (pos 0)
negative (some (suc n)) = some (negsuc n)

-- (*big.Int).SetString(s, 16)
unfoldable pub set_string : Text → Option ℤ
set_string [] = none
set_string (c ∷ s) =
    if c == b'-'
    then negative (unsigned s)
    else (if c == b'+' then positive (unsigned s) else positive (unsigned (c ∷ s)))

-- strings.TrimPrefix(s, p) for a p of two characters.
unfoldable pub trim_two : ℕ → ℕ → Text → Text
trim_two a b (c ∷ d ∷ s) = if c == a && d == b then s else c ∷ d ∷ s
trim_two a b s = s

abbrev pub hex_or_error : Option ℤ → Result ℤ
hex_or_error none = err (plain (text "invalid hex integer"))
hex_or_error (some n) = ok n

abbrev pub hex_of_trimmed : Text → Result ℤ
hex_of_trimmed s =
    if is_empty s || text_eq s (b'0' ∷ b'x' ∷ [])
    then ok (pos 0)
    else (if has_prefix s (b'0' ∷ b'x' ∷ []) || has_prefix s (b'0' ∷ b'X' ∷ [])
        then hex_or_error (set_string (trim_two b'0' b'X' (trim_two b'0' b'x' s)))
        else err (plain (text "expected 0x-prefixed hex")))

unfoldable pub hex_to_big_int : Text → Result ℤ
hex_to_big_int s = hex_of_trimmed (trim_space s)
