-- ===== src/Exec/Ensures.antt =====
-- What holds of an action's value and the state whenever it returns no error: the last call of a
-- chain decides, so the calls before it are skipped.
use pauli.Common.{Bool, true, false, if◌then◌else◌}
use pauli.Text.{Text}
use pauli.Exec.{Error, Result, ok, err, Exec, raise, annotate, continue, ◌>>=◌, resume, recover}
use pauli.Exec.Post.{IfOk, Post-annotate}

pub record Ensures {S A : Type 0} (R : A → S → Type 0) (m : Exec S A) : Type 0 where
  pub holds : (s : S) → IfOk R (m s)

module _ {S A : Type 0} {R : A → S → Type 0} where
  pub Ensures-raise : (e : Error) → Ensures R (raise e)
  Ensures-raise e = record { holds = λ s. tt }

  pub Ensures-annotate :
      (context : Text) (m : Exec S A) → Ensures R m → Ensures R (annotate context m)
  Ensures-annotate context m h = record {
    holds = λ s. Post-annotate R (λ _. Unit {0}) context m s (h.holds s);
  }

  pub Ensures-if :
      (b : Bool) (m n : Exec S A) → Ensures R m → Ensures R n → Ensures R (if b then m else n)
  Ensures-if true m n hm hn = hm
  Ensures-if false m n hm hn = hn

module _ {S A B : Type 0} {R : B → S → Type 0} where
  Ensures-continue :
      (x : Result A) (f : A → Exec S B) → ((a : A) → Ensures R (f a)) → Ensures R (continue x f)
  Ensures-continue (ok a) f h = h a
  Ensures-continue (err e) f h = record { holds = λ s. tt }

  pub Ensures-bind :
      (m : Exec S A) (f : A → Exec S B) → ((a : A) → Ensures R (f a)) → Ensures R (m >>= f)
  Ensures-bind m f h = record { holds = λ s. (Ensures-continue (m s).0 f h).holds (m s).1 }

  Ensures-resume :
      (x : Result A) (done : A → Exec S B) (failed : Error → Exec S B)
      → ((a : A) → Ensures R (done a))
      → ((e : Error) → Ensures R (failed e))
      → Ensures R (resume x done failed)
  Ensures-resume (ok a) done failed hd hf = hd a
  Ensures-resume (err e) done failed hd hf = hf e

  pub Ensures-recover :
      (m : Exec S A) (done : A → Exec S B) (failed : Error → Exec S B)
      → ((a : A) → Ensures R (done a))
      → ((e : Error) → Ensures R (failed e))
      → Ensures R (recover m done failed)
  Ensures-recover m done failed hd hf = record {
    holds = λ s. (Ensures-resume (m s).0 done failed hd hf).holds (m s).1;
  }

pub ruleset ensures_rules =
    (Ensures-raise, Ensures-annotate, Ensures-if, Ensures-bind, Ensures-recover)
