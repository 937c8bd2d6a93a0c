-- ===== src/Text/Ints.antt =====
-- Decimal texts of signed numbers: strconv.Atoi, strconv.ParseInt and strconv.FormatInt.
use pauli.Common.{ℕ, suc, ◌-◌, ◌^◌, Option, none, some, [], ◌∷◌, ltb, ◌==◌, if◌then◌else◌}
use pauli.Common.Int.{ℤ, pos, negsuc}
use pauli.Text.{Text, digits_value, format_uint}

-- The value of an int, if the digits are one.
abbrev pub positive_int : Option ℕ → Option ℤ
positive_int none = none
positive_int (some n) = if ltb n (2 ^ 63) then some (pos n) else none

abbrev pub negative_int : Option ℕ → Option ℤ
negative_int none = none
negative_int (some n) =
    if n == 0 then some (pos 0) else (if ltb (2 ^ 63) n then none else some (negsuc (n - 1)))

abbrev pub digits : Text → Option ℕ
digits [] = none
digits (c ∷ s) = digits_value 0 (c ∷ s)

-- strconv.Atoi(s), and strconv.ParseInt(s, 10, 64).
unfoldable pub atoi : Text → Option ℤ
atoi [] = none
atoi (c ∷ s) =
    if c == b'-'
    then negative_int (digits s)
    else (if c == b'+' then positive_int (digits s) else positive_int (digits (c ∷ s)))

-- strconv.FormatInt(n, 10)
abbrev pub format_int : ℤ → Text
format_int (pos n) = format_uint n
format_int (negsuc n) = b'-' ∷ format_uint (suc n)
