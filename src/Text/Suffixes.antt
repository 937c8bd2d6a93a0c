-- ===== src/Text/Suffixes.antt =====
-- Laws of the ends of texts.
use pauli.Common.{
  ℕ, ◌≡◌, ◌≢◌, refl, ap, inl, inr, true, false, [], ◌∷◌, ◌++◌, length, length-append, arith,
  Bool-cases,
}
use pauli.Text.{Text, text_eq}
use pauli.Text.Laws.{text_eq→eq, text_eq_refl}
use pauli.Text.Cut.{trim_suffix, has_suffix}

longer : (c : ℕ) (s p : Text) → text_eq ((c ∷ s) ++ p) p ≡ false
longer c s p = elim (Bool-cases (text_eq ((c ∷ s) ++ p) p)) [
  | inl same ↦
      let e = ap length (text_eq→eq ((c ∷ s) ++ p) p same) in
      absurd (omega (arith, e, length-append (c ∷ s) p))
  | inr differ ↦ differ
]

pub trim_suffix-append : (s p : Text) → p ≢ [] → trim_suffix (s ++ p) p ≡ s
unfolding trim_suffix
trim_suffix-append [] [] h = absurd (h refl)
trim_suffix-append [] (c ∷ p) h = rw (text_eq_refl (c ∷ p)) refl
trim_suffix-append (c ∷ s) p h = rw (longer c s p) (ap (◌∷◌ c) (trim_suffix-append s p h))

pub has_suffix-append : (s p : Text) → p ≢ [] → has_suffix (s ++ p) p ≡ true
unfolding has_suffix
has_suffix-append [] [] h = absurd (h refl)
has_suffix-append [] (c ∷ p) h = rw (text_eq_refl (c ∷ p)) refl
has_suffix-append (c ∷ s) p h = rw (longer c s p) (has_suffix-append s p h)
