-- ===== src/Exec/Returns.antt =====
-- Actions that return no error.
use pauli.Text.{Text}
use pauli.Exec.{Result, ok, err, Exec, annotate, ◌>>=◌}
use pauli.Exec.Post.{Post, Post-annotate, Post-bind}

module _ {S A : Type 0} where
  abbrev pub IsOk : Result A × S → Type 0
  IsOk = Post (λ _ _. Unit {0}) (λ _. ⊥)

  pub IsOk-annotate :
      (context : Text) (m : Exec S A) (s : S) → IsOk (m s) → IsOk (annotate context m s)
  IsOk-annotate context m s = Post-annotate (λ _ _. Unit {0}) (λ _. ⊥) context m s

  -- What holds if an action returns, for one that does.
  pub IsOk-Post :
      (Q : A → S → Type 0) (E : S → Type 0) (x : Result A × S)
      → IsOk x
      → Post Q E x
      → Post Q (λ _. ⊥) x
  IsOk-Post Q E (ok a, s) h k = k
  IsOk-Post Q E (err e, s) h k = h

pub IsOk-bind :
    {S A B : Type 0} (m : Exec S A) (f : A → Exec S B) (s : S)
    → IsOk (m s)
    → ((a : A) (s' : S) → IsOk (f a s'))
    → IsOk ((m >>= f) s)
IsOk-bind m f s h k =
    Post-bind (λ _ _. Unit {0}) (λ _ _. Unit {0}) (λ _. ⊥) m f s h (λ a s' u. k a s')
