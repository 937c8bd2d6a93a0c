-- ===== src/Execution/Hex/Printed.antt =====
-- hexToBigInt on numbers that are printed in hexadecimal.
use pauli.Common.{
  ℕ, zero, suc, ◌+◌, ◌*◌, ◌/◌, ◌%◌, ◌^◌, ◌<◌, ◌≡◌, refl, ap, ◌∙◌, inl, inr, Bool, true, false, ◌&&◌,
  some, [], ◌∷◌, All, arith, ltb, ◌==◌, lt→ltb, ltb→lt, ltb→le, Bool-cases, if◌then◌else◌,
}
use native.Mathlib.Nat.{pow-suc}
use pauli.Common.Int.{pos}
use pauli.Text.{Text, has_prefix}
use pauli.Text.Cut.{is_space, trim_left, trim_right}
use pauli.Exec.{ok}
use pauli.Execution.Hex.{
  hex_char, hex_digits, format_hex, digit_of_hex, with_digit, hex_value, set_string, trim_two,
  hex_to_big_int, hex_of_trimmed, hex_or_error, positive,
}

-- No white space and no X.
abbrev IsSolid : Text → Type 0
IsSolid s = All (λ c. (is_space c ≡ false) × ((c == 88) ≡ false)) s

digit_of-hex_char : (d : ℕ) → d < 16 → digit_of_hex (hex_char d) ≡ some d
digit_of-hex_char d h = elim (Bool-cases (ltb d 10)) [
  | inl small ↦ rw small (ground (arith, h, ltb→lt d 10 small))
  | inr large ↦ rw large (ground (arith, h, ltb→le d 10 large))
]

hex_char_solid : (d : ℕ) → d < 16 → (is_space (hex_char d) ≡ false) × ((hex_char d == 88) ≡ false)
hex_char_solid d h = elim (Bool-cases (ltb d 10)) [
  | inl small ↦
      rw small (ground (arith, h, ltb→lt d 10 small), ground (arith, h, ltb→lt d 10 small))
  | inr large ↦
      rw large (ground (arith, h, ltb→le d 10 large), ground (arith, h, ltb→le d 10 large))
]

div_sixteen : (n fuel : ℕ) → n < 16 ^ suc (suc fuel) → n / 16 < 16 ^ suc fuel
div_sixteen n fuel h =
    let e : 16 ^ suc (suc fuel) ≡ 16 ^ suc fuel * 16 = pow-suc 16 (suc fuel) in omega arith

hex_value-digit :
    (a d : ℕ) (acc : Text) → d < 16 → hex_value a (hex_char d ∷ acc) ≡ hex_value (a * 16 + d) acc
unfolding hex_value
hex_value-digit a d acc h =
    ap (with_digit (λ k. hex_value (a * 16 + k) acc)) (digit_of-hex_char d h)

hex_value-hex_digits :
    (fuel n : ℕ) (acc : Text)
    → n < 16 ^ suc fuel
    → hex_value 0 (hex_digits (suc fuel) n acc) ≡ hex_value n acc
unfolding hex_digits
hex_value-hex_digits zero n acc h =
    let small : n < 16 = omega arith in
    rw (lt→ltb _ _ small) (hex_value-digit 0 n acc small ∙ ap (λ k. hex_value k acc) (omega arith))
hex_value-hex_digits (suc fuel) n acc h = elim (Bool-cases (ltb n 16)) [
  | inl small ↦
      rw small
        (hex_value-digit 0 n acc (ltb→lt _ _ small) ∙ ap (λ k. hex_value k acc) (omega arith))
  | inr large ↦ rw large (
      hex_value-hex_digits fuel (n / 16) (hex_char (n % 16) ∷ acc) (div_sixteen n fuel h)
      ∙ (hex_value-digit (n / 16) (n % 16) acc (omega arith)
          ∙ ap (λ k. hex_value k acc) (omega arith)))
]

hex_digits-IsSolid : (fuel n : ℕ) (acc : Text) → IsSolid acc → IsSolid (hex_digits fuel n acc)
unfolding hex_digits
hex_digits-IsSolid zero n acc h = h
hex_digits-IsSolid (suc fuel) n acc h = elim (Bool-cases (ltb n 16)) [
  | inl small ↦ rw small (hex_char_solid n (ltb→lt n 16 small), h)
  | inr large ↦ rw large (
      hex_digits-IsSolid fuel (n / 16) (hex_char (n % 16) ∷ acc)
        (hex_char_solid (n % 16) (omega arith), h))
]

trim_right-IsSolid : (s : Text) → IsSolid s → trim_right s ≡ s
unfolding trim_right
trim_right-IsSolid [] h = refl
trim_right-IsSolid (c ∷ s) h = rw (h.0.0) (ap (◌∷◌ c) (trim_right-IsSolid s h.1))

-- What the digits start with.
StartsHex : Text → Type 0
StartsHex [] = ⊥
StartsHex (c ∷ s) = (d : ℕ) × (d < 16) × (c ≡ hex_char d)

hex_digits-StartsHex :
    (fuel n d : ℕ) (acc : Text) → d < 16 → StartsHex (hex_digits fuel n (hex_char d ∷ acc))
unfolding hex_digits StartsHex
hex_digits-StartsHex zero n d acc h = (d, h, refl)
hex_digits-StartsHex (suc fuel) n d acc h = elim (Bool-cases (ltb n 16)) [
  | inl small ↦ rw small (n, ltb→lt n 16 small, refl)
  | inr large ↦ rw large (hex_digits-StartsHex fuel (n / 16) (n % 16) _ (omega arith))
]

hex_digits-suc : (fuel n : ℕ) → StartsHex (hex_digits (suc fuel) n [])
unfolding hex_digits StartsHex
hex_digits-suc fuel n = elim (Bool-cases (ltb n 16)) [
  | inl small ↦ rw small (n, ltb→lt n 16 small, refl)
  | inr large ↦ rw large (hex_digits-StartsHex fuel (n / 16) (n % 16) [] (omega arith))
]

signless : (d : ℕ) → d < 16 → ((hex_char d == 45) ≡ false) × ((hex_char d == 43) ≡ false)
signless d h = elim (Bool-cases (ltb d 10)) [
  | inl small ↦
      rw small (ground (arith, h, ltb→lt d 10 small), ground (arith, h, ltb→lt d 10 small))
  | inr large ↦
      rw large (ground (arith, h, ltb→le d 10 large), ground (arith, h, ltb→le d 10 large))
]

set_string-digits :
    (t : Text) (n : ℕ) → StartsHex t → hex_value 0 t ≡ some n → set_string t ≡ some (pos n)
unfolding set_string StartsHex
set_string-digits [] n first value = absurd first
set_string-digits (c ∷ s) n (d, small, e) value =
    let no_sign = signless d small in
    rw (ap (λ k. k == 45) e ∙ no_sign.0) (rw (ap (λ k. k == 43) e ∙ no_sign.1) (ap positive value))

-- No X in second place, so nothing more is cut off.
trim_two-IsSolid : (t : Text) → IsSolid t → trim_two b'0' b'X' t ≡ t
unfolding trim_two
trim_two-IsSolid [] h = refl
trim_two-IsSolid (c ∷ []) h = refl
trim_two-IsSolid (c ∷ d ∷ s) h = rw (h.1.0.1) (cut (c == 48))
  where
    cut : (b : Bool) → (if b && false then s else c ∷ d ∷ s) ≡ c ∷ d ∷ s
    cut true = refl
    cut false = refl

hex_value-end : (n : ℕ) → hex_value n [] ≡ some n
unfolding hex_value
hex_value-end n = refl

read_digits :
    (t : Text) (n : ℕ)
    → IsSolid t
    → StartsHex t
    → hex_value 0 t ≡ some n
    → hex_to_big_int (b'0' ∷ b'x' ∷ t) ≡ ok (pos n)
unfolding hex_to_big_int trim_left trim_right has_prefix trim_two StartsHex
read_digits [] n solid first value = absurd first
read_digits (c ∷ s) n solid first value =
    ap (λ t. hex_of_trimmed (b'0' ∷ b'x' ∷ t)) (trim_right-IsSolid (c ∷ s) solid)
    ∙ ap hex_or_error
        (ap set_string (trim_two-IsSolid (c ∷ s) solid) ∙ set_string-digits (c ∷ s) n first value)

-- A uint64 that is printed as 0x and hexadecimal digits, as the numbers of blocks are in requests, is
-- read back.
pub hex_to_big_int-format_hex : (n : ℕ) → n < 2 ^ 64 → hex_to_big_int (format_hex n) ≡ ok (pos n)
unfolding format_hex
hex_to_big_int-format_hex n h =
    read_digits (hex_digits 16 n []) n (hex_digits-IsSolid 16 n [] tt) (hex_digits-suc 15 n)
      (hex_value-hex_digits 15 n [] (omega arith) ∙ hex_value-end n)
