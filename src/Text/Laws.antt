-- ===== src/Text/Laws.antt =====
-- Laws of the texts: printing and parsing decimals, and where a text contains another.
use pauli.Common.{
  ℕ, zero, suc, ◌+◌, ◌*◌, ◌/◌, ◌%◌, ◌^◌, ◌<◌, ◌≡◌, ◌≢◌, refl, sym, ◌∙◌, ap, ◌-◌, inl, inr, true,
  false, some, ◌==◌, ==_iff, [], ◌∷◌, ◌++◌, arith, ltb, lt→ltb, ltb→lt, Bool-cases,
}
use native.Mathlib.Nat.{pow-suc}
use pauli.Text.{
  text_eq, is_digit, Text, has_prefix, contains, decimal, format_uint, digits_value, parse_uint,
}

has_prefix-append : (s p t : Text) → has_prefix s p ≡ true → has_prefix (s ++ t) p ≡ true
unfolding has_prefix
has_prefix-append s [] t h = refl
has_prefix-append [] (p ∷ ps) t h = cc
has_prefix-append (c ∷ s) (p ∷ ps) t h = ground (arith, has_prefix-append s ps t)

pub contains-append_left : (s sub t : Text) → contains s sub ≡ true → contains (s ++ t) sub ≡ true
unfolding contains
contains-append_left [] [] [] h = refl
contains-append_left [] [] (c ∷ t) h = refl
contains-append_left [] (p ∷ ps) t h = cc
contains-append_left (c ∷ s) sub t h =
    ground (arith, contains-append_left s sub t, has_prefix-append (c ∷ s) sub t)

pub contains-append_right : (s sub t : Text) → contains t sub ≡ true → contains (s ++ t) sub ≡ true
unfolding contains
contains-append_right [] sub t h = h
contains-append_right (c ∷ s) sub t h = ground (arith, contains-append_right s sub t)

digit-range : (d : ℕ) → d < 10 → is_digit (48 + d) ≡ true
digit-range d h = ground arith

div_ten : (n fuel : ℕ) → n < 10 ^ suc (suc fuel) → n / 10 < 10 ^ suc fuel
div_ten n fuel h =
    let e : 10 ^ suc (suc fuel) ≡ 10 ^ suc fuel * 10 = pow-suc 10 (suc fuel) in omega arith

digits_value-digit :
    (a d : ℕ) (acc : Text)
    → d < 10
    → digits_value a ((48 + d) ∷ acc) ≡ digits_value (a * 10 + d) acc
unfolding digits_value
digits_value-digit a d acc h =
    let same : 48 + d - 48 ≡ d = omega arith in rw same (rw (digit-range d h))

digits_value-end : (n : ℕ) → digits_value n [] ≡ some n
unfolding digits_value
digits_value-end n = refl

-- `decimal` puts the digits of `n` in front, and reading them gives back `n`.
digits_value-decimal :
    (fuel n : ℕ) (acc : Text)
    → n < 10 ^ suc fuel
    → digits_value 0 (decimal (suc fuel) n acc) ≡ digits_value n acc
unfolding decimal
digits_value-decimal zero n acc h =
    let small : n < 10 = omega arith in
    rw (lt→ltb _ _ small)
      (digits_value-digit 0 n acc small ∙ ap (λ k. digits_value k acc) (omega arith))
digits_value-decimal (suc fuel) n acc h = elim (Bool-cases (ltb n 10)) [
  | inl small ↦
      rw small
        (digits_value-digit 0 n acc (ltb→lt _ _ small) ∙ ap (λ k. digits_value k acc) (omega arith))
  | inr large ↦ rw large (
      digits_value-decimal fuel (n / 10) ((48 + n % 10) ∷ acc) (div_ten n fuel h)
      ∙ rw (digits_value-digit (n / 10) (n % 10) acc (omega arith))
          (ap (λ k. digits_value k acc) (omega arith)))
]

parse_uint-value :
    (t : Text) (n : ℕ) → t ≢ [] → n < 2 ^ 64 → digits_value 0 t ≡ some n → parse_uint t ≡ some n
unfolding parse_uint
parse_uint-value [] n ne h e = absurd (ne refl)
parse_uint-value (c ∷ s) n ne h e = rw e (rw (lt→ltb _ _ h))

decimal-nonempty : (fuel n c : ℕ) (acc : Text) → decimal fuel n (c ∷ acc) ≢ []
unfolding decimal
decimal-nonempty zero n c acc e = cc
decimal-nonempty (suc fuel) n c acc e =
    ground (arith, decimal-nonempty fuel (n / 10) (48 + n % 10) (c ∷ acc))

decimal-suc-nonempty : (fuel n : ℕ) (acc : Text) → decimal (suc fuel) n acc ≢ []
unfolding decimal
decimal-suc-nonempty fuel n acc e = ground (arith, decimal-nonempty fuel (n / 10) (48 + n % 10) acc)

-- What strconv.FormatUint prints, strconv.ParseUint reads back.
pub parse_uint-format_uint : (n : ℕ) → n < 2 ^ 64 → parse_uint (format_uint n) ≡ some n
unfolding format_uint
parse_uint-format_uint n h =
    parse_uint-value (format_uint n) n (decimal-suc-nonempty 19 n []) h
      (digits_value-decimal 19 n [] (omega arith) ∙ digits_value-end n)

pub text_eq→eq : (s t : Text) → text_eq s t ≡ true → s ≡ t
text_eq→eq [] [] h = refl
text_eq→eq [] (d ∷ t) h = absurd cc
text_eq→eq (c ∷ s) [] h = absurd cc
text_eq→eq (c ∷ s) (d ∷ t) h = elim (Bool-cases (c == d)) [
  | inl same ↦ cc ((==_iff c d).0 same, text_eq→eq s t (ground (arith, h, same)))
  | inr other ↦ absurd (ground (arith, h, other))
]

pub text_eq_refl : (s : Text) → text_eq s s ≡ true
text_eq_refl [] = refl
text_eq_refl (c ∷ s) = ground (arith, text_eq_refl s)

-- Two numbers print differently.
pub keys_differ :
    (v i : ℕ) → v < 2 ^ 64 → i < 2 ^ 64 → v ≢ i → text_eq (format_uint v) (format_uint i) ≡ false
keys_differ v i hv hi ne = elim (Bool-cases (text_eq (format_uint v) (format_uint i))) [
  | inl same ↦
      let printed : format_uint v ≡ format_uint i = text_eq→eq _ _ same in
      absurd (
        ne (
          cc (
            sym (parse_uint-format_uint v hv)
            ∙ (ap parse_uint printed ∙ parse_uint-format_uint i hi))))
  | inr other ↦ other
]

-- The digits that are printed have the number's value.
pub digits_value-format_uint : (n : ℕ) → n < 2 ^ 64 → digits_value 0 (format_uint n) ≡ some n
unfolding format_uint
digits_value-format_uint n h = digits_value-decimal 19 n [] (omega arith) ∙ digits_value-end n
