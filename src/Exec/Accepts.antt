-- ===== src/Exec/Accepts.antt =====
-- What holds of the value of a result, where there is one.
use pauli.Text.{Text}
use pauli.Exec.{Result, ok, err, and_then, annotate, lift}
use pauli.Exec.Post.{IfOk}

abbrev pub Accepts : {A : Type 0} → (A → Type 0) → Result A → Type 0
Accepts P (ok a) = P a
Accepts P (err e) = Unit

module _ {A B : Type 0} where
  pub and_then-Accepts :
      (P : A → Type 0) (Q : B → Type 0) (x : Result A) (f : A → Result B)
      → Accepts P x
      → ((a : A) → P a → Accepts Q (f a))
      → Accepts Q (and_then x f)
  and_then-Accepts P Q (ok a) f h k = k a h
  and_then-Accepts P Q (err e) f h k = tt

pub Accepts-weaken :
    {A : Type 0} (P Q : A → Type 0) (x : Result A)
    → ((a : A) → P a → Q a)
    → Accepts P x
    → Accepts Q x
Accepts-weaken P Q (ok a) f h = f a h
Accepts-weaken P Q (err e) f h = tt

pub lift-IfOk :
    {S A : Type 0} (P : A → Type 0) (context : Text) (x : Result A) (s : S)
    → Accepts P x
    → IfOk (λ a _. P a) (annotate context (lift x) s)
lift-IfOk P context (ok a) s h = h
lift-IfOk P context (err e) s h = tt
