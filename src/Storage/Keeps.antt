-- ===== src/Storage/Keeps.antt =====
-- What an action leaves true of the tables, whether it returns or fails: one rule for each way to
-- build an action.
use pauli.Common.{ℕ, Bool, true, false, if◌then◌else◌}
use pauli.Text.{Text}
use pauli.Exec.{
  Error, Result, ok, err, Exec, pure, raise, annotate, continue, ◌>>=◌, resume, recover,
}
use pauli.Storage.{Db, World, Repository, execute, query}
use pauli.Storage.Statements.{execute-keeps, query-keeps}

pub record Keeps {A : Type 0} (P : Db → Type 0) (m : Exec World A) : Type 0 where
  pub stays : (w : World) → P w.db → P (m w).1.db

module _ {A : Type 0} {P : Db → Type 0} where
  pub Keeps-pure : (a : A) → Keeps P (pure {S = World} a)
  Keeps-pure a = record { stays = λ w h. h }

  pub Keeps-raise : (e : Error) → Keeps P (raise {S = World} {A = A} e)
  Keeps-raise e = record { stays = λ w h. h }

  pub Keeps-annotate :
      (context : Text) (m : Exec World A) → Keeps P m → Keeps P (annotate context m)
  Keeps-annotate context m k = record { stays = k.stays }

  pub Keeps-if :
      (b : Bool) (m n : Exec World A) → Keeps P m → Keeps P n → Keeps P (if b then m else n)
  Keeps-if true m n km kn = km
  Keeps-if false m n km kn = kn

module _ {A : Type 0} {P : Db → Type 0} (r : Repository) (fits : Bool) where
  pub Keeps-query : (read : Db → A) → Keeps P (query r fits read)
  Keeps-query read = record { stays = query-keeps r fits read P }

module _ {P : Db → Type 0} (r : Repository) (fits : Bool) where
  pub Keeps-execute :
      (change : ℕ → Db → Db)
      → ((now : ℕ) (d : Db) → P d → P (change now d))
      → Keeps P (execute r fits change)
  Keeps-execute change k = record {
    stays = λ w h. execute-keeps r fits change P w h (λ now. k now w.db h);
  }

module _ {A B : Type 0} {P : Db → Type 0} where
  Keeps-continue :
      (x : Result A) (f : A → Exec World B) → ((a : A) → Keeps P (f a)) → Keeps P (continue x f)
  Keeps-continue (ok a) f k = k a
  Keeps-continue (err e) f k = record { stays = λ w h. h }

  pub Keeps-bind :
      (m : Exec World A) (f : A → Exec World B)
      → Keeps P m
      → ((a : A) → Keeps P (f a))
      → Keeps P (m >>= f)
  Keeps-bind m f km kf = record {
    stays = λ w h. (Keeps-continue (m w).0 f kf).stays (m w).1 (km.stays w h);
  }

  Keeps-resume :
      (x : Result A) (done : A → Exec World B) (failed : Error → Exec World B)
      → ((a : A) → Keeps P (done a))
      → ((e : Error) → Keeps P (failed e))
      → Keeps P (resume x done failed)
  Keeps-resume (ok a) done failed kd kf = kd a
  Keeps-resume (err e) done failed kd kf = kf e

  pub Keeps-recover :
      (m : Exec World A) (done : A → Exec World B) (failed : Error → Exec World B)
      → Keeps P m
      → ((a : A) → Keeps P (done a))
      → ((e : Error) → Keeps P (failed e))
      → Keeps P (recover m done failed)
  Keeps-recover m done failed km kd kf = record {
    stays = λ w h. (Keeps-resume (m w).0 done failed kd kf).stays (m w).1 (km.stays w h);
  }

pub ruleset keeps_rules =
    (Keeps-pure, Keeps-raise, Keeps-annotate, Keeps-if, Keeps-query, Keeps-bind, Keeps-recover)
