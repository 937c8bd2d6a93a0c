-- ===== src/Text/Order.antt =====
-- The order of Go strings.
use pauli.Common.{◌≡◌, refl, true, false, [], ◌∷◌, arith}
use pauli.Text.{Text}
use pauli.Text.Cut.{text_lt}

pub text_lt-flip : (s t : Text) → text_lt s t ≡ true → text_lt t s ≡ false
unfolding text_lt
text_lt-flip s [] h = absurd cc
text_lt-flip [] (d ∷ t) h = refl
text_lt-flip (c ∷ s) (d ∷ t) h = ground (arith, h, text_lt-flip s t)

-- Not smaller, in two steps.
pub text_lt-between :
    (s t u : Text) → text_lt t s ≡ false → text_lt u t ≡ false → text_lt u s ≡ false
unfolding text_lt
text_lt-between [] t u h k = refl
text_lt-between (c ∷ s) [] u h k = absurd cc
text_lt-between (c ∷ s) (d ∷ t) [] h k = absurd cc
text_lt-between (c ∷ s) (d ∷ t) (e ∷ u) h k = ground (arith, h, k, text_lt-between s t u)
