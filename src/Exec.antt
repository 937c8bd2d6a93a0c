-- ===== src/Exec.antt =====
-- Go functions that return a value and an `error`, over a state. What was done before an error
-- stays done, so the state comes back beside the error too.
pub mod Post
pub mod Ensures
pub mod Accepts
pub mod Returns
use pauli.Common.{ℕ, ◌++◌, ◌≡◌, ap}
use pauli.Text.{Text, text, format_uint}

-- The errors that the code tells apart, and those that it only passes on.
pub data Error : Type 0 where
  -- beacon.HTTPResponseError
  http_response : (status : ℕ) (path body : Text) → Error
  -- backoff.RetryableError
  retryable : (status : ℕ) (message : Text) → Error
  -- fmt.Errorf("context: %w", err)
  wrap : (context : Text) → Error → Error
  -- errors of libraries, and fmt.Errorf without %w
  plain : Text → Error
  -- pgx.ErrNoRows
  no_rows : Error
  -- ctx.Err() of a context that is done
  canceled : Error
  -- queue.ErrPoolStopped
  pool_stopped : Error

-- err.Error()
unfoldable pub error_text : Error → Text
error_text (http_response status path body) =
    text "unexpected status " ++ (format_uint status ++ (text ": " ++ body))
error_text (retryable status message) = message
error_text (wrap context e) = context ++ (text ": " ++ error_text e)
error_text (plain message) = message
error_text no_rows = text "no rows in result set"
error_text canceled = text "context canceled"
error_text pool_stopped = text "pool stopped"

pub data Result (A : Type 0) : Type 0 where
  ok : A → Result A
  err : Error → Result A

abbrev pub Exec : Type 0 → Type 0 → Type 0
Exec S A = S → Result A × S

-- fmt.Errorf("context: %w", err) around what a call returns.
abbrev pub annotated : {A : Type 0} → Text → Result A → Result A
annotated context (ok a) = ok a
annotated context (err e) = err (wrap context e)

abbrev pub and_then : {A B : Type 0} → Result A → (A → Result B) → Result B
and_then (ok a) f = f a
and_then (err e) f = err e

module _ {S A : Type 0} where
  -- A result that is there already.
  abbrev pub lift : Result A → Exec S A
  lift x s = (x, s)

  abbrev pub pure : A → Exec S A
  pure a s = (ok a, s)

  abbrev pub raise : Error → Exec S A
  raise e s = (err e, s)

  abbrev pub annotate : Text → Exec S A → Exec S A
  annotate context m s = let (r, s') = m s in (annotated context r, s')

module _ {S A B : Type 0} where
  abbrev pub continue : Result A → (A → Exec S B) → Exec S B
  continue (ok a) f s = f a s
  continue (err e) f s = (err e, s)

  infixl 5 ◌>>=◌ ◌>>◌
  abbrev pub ◌>>=◌ : Exec S A → (A → Exec S B) → Exec S B
  ◌>>=◌ m f s = let (r, s') = m s in continue r f s'

  abbrev pub ◌>>◌ : Exec S A → Exec S B → Exec S B
  m >> k = m >>= λ _. k

  -- A call after one that returns a value goes on with it.
  pub bind-ok :
      (m : Exec S A) (f : A → Exec S B) (a : A) (s' s : S) → m s ≡ (ok a, s') → (m >>= f) s ≡ f a s'
  bind-ok m f a s' s e = ap (λ (x : Result A × S). continue x.0 f x.1) e

  -- `a, err := m(); if err != nil { failed(err) }; done(a)`
  abbrev pub resume : Result A → (A → Exec S B) → (Error → Exec S B) → Exec S B
  resume (ok a) done failed s = done a s
  resume (err e) done failed s = failed e s

  abbrev pub recover : Exec S A → (A → Exec S B) → (Error → Exec S B) → Exec S B
  recover m done failed s = let (r, s') = m s in resume r done failed s'
