-- ===== src/Exec/Post.antt =====
-- Postconditions of actions: `Q` of a value and the state, `E` of the state after an error.
use pauli.Text.{Text}
use pauli.Exec.{Error, Result, ok, err, Exec, annotate, continue, ◌>>=◌, resume, recover}

module _ {S A : Type 0} where
  abbrev pub Post : (A → S → Type 0) → (S → Type 0) → Result A × S → Type 0
  Post Q E (ok a, s) = Q a s
  Post Q E (err e, s) = E s

  pub Post-weaken :
      {Q R : A → S → Type 0} {E F : S → Type 0} (x : Result A × S)
      → ((a : A) (s : S) → Q a s → R a s)
      → ((s : S) → E s → F s)
      → Post Q E x
      → Post R F x
  Post-weaken (ok a, s) f g h = f a s h
  Post-weaken (err e, s) f g h = g s h

  -- What holds of the state however the call ended.
  pub Post-state : (P : S → Type 0) (x : Result A × S) → P x.1 → Post (λ _ s. P s) P x
  Post-state P (ok a, s) h = h
  Post-state P (err e, s) h = h

  pub state-Post : (P : S → Type 0) (x : Result A × S) → Post (λ _ s. P s) P x → P x.1
  state-Post P (ok a, s) h = h
  state-Post P (err e, s) h = h

  -- A postcondition, and what holds of the state however the call ended.
  pub Post-and :
      (Q : A → S → Type 0) (E P : S → Type 0) (x : Result A × S)
      → Post Q E x
      → P x.1
      → Post (λ a s. Q a s × P s) E x
  Post-and Q E P (ok a, s) h p = (h, p)
  Post-and Q E P (err e, s) h p = h

  pub Post-annotate :
      (Q : A → S → Type 0) (E : S → Type 0) (context : Text) (m : Exec S A) (s : S)
      → Post Q E (m s)
      → Post Q E (annotate context m s)
  Post-annotate Q E context m s = go (m s)
    where
      go : (x : Result A × S) → Post Q E x → Post Q E (annotate context (λ _. x) s)
      go (ok a, s') h = h
      go (err e, s') h = h

module _ {S A B : Type 0} where
  Post-continue :
      (Q : A → S → Type 0) (R : B → S → Type 0) (E : S → Type 0) (x : Result A × S)
      (f : A → Exec S B)
      → Post Q E x
      → ((a : A) (s : S) → Q a s → Post R E (f a s))
      → Post R E (continue x.0 f x.1)
  Post-continue Q R E (ok a, s) f h k = k a s h
  Post-continue Q R E (err e, s) f h k = h

  pub Post-bind :
      (Q : A → S → Type 0) (R : B → S → Type 0) (E : S → Type 0) (m : Exec S A) (f : A → Exec S B)
      (s : S)
      → Post Q E (m s)
      → ((a : A) (s' : S) → Q a s' → Post R E (f a s'))
      → Post R E ((m >>= f) s)
  Post-bind Q R E m f s = Post-continue Q R E (m s) f

  pub Post-recover :
      (Q : A → S → Type 0) (R : B → S → Type 0) (E F : S → Type 0) (m : Exec S A)
      (done : A → Exec S B) (failed : Error → Exec S B) (s : S)
      → Post Q E (m s)
      → ((a : A) (s' : S) → Q a s' → Post R F (done a s'))
      → ((e : Error) (s' : S) → E s' → Post R F (failed e s'))
      → Post R F (recover m done failed s)
  Post-recover Q R E F m done failed s = go (m s)
    where
      go :
          (x : Result A × S)
          → Post Q E x
          → ((a : A) (s' : S) → Q a s' → Post R F (done a s'))
          → ((e : Error) (s' : S) → E s' → Post R F (failed e s'))
          → Post R F (resume x.0 done failed x.1)
      go (ok a, s') h f g = f a s' h
      go (err e, s') h f g = g e s' h

-- A postcondition of success alone.
abbrev pub IfOk : {S A : Type 0} → (A → S → Type 0) → Result A × S → Type 0
IfOk Q = Post Q (λ _. Unit {0})
