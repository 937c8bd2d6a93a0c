-- ===== src/Storage/Statements.antt =====
-- What one statement can do to the state, for every fate of it.
use pauli.Common.{ℕ, ◌+◌, ◌≡◌, refl, subst, sym, Bool, true, false}
use pauli.Text.{Text}
use pauli.Exec.{ok, Exec, annotate, ◌>>=◌}
use pauli.Exec.Post.{Post, IfOk, Post-annotate, Post-bind}
use pauli.Storage.{Db, World, Fate, answered, refused, reply_lost, Repository, execute, query, at}

module _ (r : Repository) (fits : Bool) where
  -- A statement leaves the tables as they were or changes them as it says, and without an error it
  -- has changed them.
  pub execute-Post :
      (change : ℕ → Db → Db) (Q : Unit {0} → World → Type 0) (E : World → Type 0) (w : World)
      → ((n now : ℕ) → Q tt (at n (change now w.db)))
      → ((n : ℕ) → E (at n w.db))
      → ((n now : ℕ) → E (at n (change now w.db)))
      → Post Q E (execute r fits change w)
  unfolding execute
  execute-Post change Q E w done kept lost = go fits (r.fate w.calls)
    where
      go : (b : Bool) (f : Fate) → Post Q E (execute (record r { fate = λ _. f }) b change w)
      go false f = kept w.calls
      go true answered = done _ _
      go true refused = kept _
      go true reply_lost = lost _ _

  -- A query leaves the tables alone, and without an error it returns what it reads.
  pub query-Post :
      {A : Type 0} (read : Db → A) (Q : A → World → Type 0) (E : World → Type 0) (w : World)
      → ((n : ℕ) → fits ≡ true → Q (read w.db) (at n w.db))
      → ((n : ℕ) → E (at n w.db))
      → Post Q E (query r fits read w)
  unfolding query
  query-Post {A} read Q E w done kept = go fits (r.fate w.calls) refl
    where
      go : (b : Bool) (f : Fate) → fits ≡ b → Post Q E (query (record r { fate = λ _. f }) b read w)
      go false f e = kept w.calls
      go true answered e = done _ e
      go true refused e = kept _
      go true reply_lost e = kept _

  -- What holds of the tables before a statement and after its change holds after the call.
  pub execute-keeps :
      (change : ℕ → Db → Db) (P : Db → Type 0) (w : World)
      → P w.db
      → ((now : ℕ) → P (change now w.db))
      → P (execute r fits change w).1.db
  unfolding execute
  execute-keeps change P w h k = go fits (r.fate w.calls)
    where
      go : (b : Bool) (f : Fate) → P (execute (record r { fate = λ _. f }) b change w).1.db
      go false f = h
      go true answered = k _
      go true refused = h
      go true reply_lost = k _

  pub query-keeps :
      {A : Type 0} (read : Db → A) (P : Db → Type 0) (w : World)
      → P w.db
      → P (query r fits read w).1.db
  unfolding query
  query-keeps read P w h = go fits (r.fate w.calls)
    where
      go : (b : Bool) (f : Fate) → P (query (record r { fate = λ _. f }) b read w).1.db
      go false f = h
      go true answered = h
      go true refused = h
      go true reply_lost = h

module _ (r : Repository) (fits : Bool) {A : Type 0} (context : Text) (read : Db → A) where
  -- What is returned of a query is what it reads, and a call after it works on that.
  pub read-IfOk :
      (P : A → Type 0) (w : World)
      → P (read w.db)
      → IfOk (λ a _. P a) (annotate context (query r fits read) w)
  read-IfOk P w h =
      Post-annotate (λ a _. P a) (λ _. Unit {0}) context (query r fits read) w
        (query-Post r fits read (λ a _. P a) (λ _. Unit {0}) w (λ n e. h) (λ n. tt))

  pub read_then-IfOk :
      {B : Type 0} (f : A → Exec World B) (P : B → Type 0) (w : World)
      → ((w' : World) → IfOk (λ b _. P b) (f (read w.db) w'))
      → IfOk (λ b _. P b) ((annotate context (query r fits read) >>= f) w)
  read_then-IfOk f P w h =
      Post-bind (λ a _. a ≡ read w.db) (λ b _. P b) (λ _. Unit {0})
        (annotate context (query r fits read)) f w (read-IfOk (λ a. a ≡ read w.db) w refl)
        (λ a w' e. subst (λ x. IfOk (λ b _. P b) (f x w')) (sym e) (h w'))

  -- A server that answers returns what the statement reads.
  pub read-ok :
      (w : World)
      → fits ≡ true
      → r.fate w.calls ≡ answered
      → annotate context (query r fits read) w ≡ (ok (read w.db), at (w.calls + 1) w.db)
  unfolding query
  read-ok w e a = rw e (rw a refl)

  pub read_then-ok :
      {B : Type 0} (f : A → Exec World B) (w : World)
      → fits ≡ true
      → r.fate w.calls ≡ answered
      → (annotate context (query r fits read) >>= f) w ≡ f (read w.db) (at (w.calls + 1) w.db)
  unfolding query
  read_then-ok f w e a = rw e (rw a refl)
