-- ===== src/Backoff/Retries.antt =====
-- pkg/backoff/backoff.go: what Retry runs, and what it returns.
use pauli.Common.{ℕ, zero, suc, ◌≡◌, Bool, true, false}
use pauli.Exec.{Error, canceled, Result, ok, err, Exec}
use pauli.Backoff.{is_retryable}

module _ (fn : ℕ → Result (Unit {0})) (wait : ℕ → Bool) where
  -- The run `k` failed in a way to retry.
  abbrev pub Failed : ℕ → Type 0
  Failed k = (e : Error) × (fn k ≡ err e) × (is_retryable e ≡ true)

  -- The result is not to retry.
  abbrev pub Settled : Result (Unit {0}) → Type 0
  Settled (ok u) = Unit
  Settled (err e) = is_retryable e ≡ false

  -- From the run `n` on, with up to `left` more behind it: each run but the last failed and was
  -- followed by a completed wait; the last one settled it, or was the last allowed and failed, or
  -- failed and the wait after it was cancelled.
  pub data Trace : ℕ → ℕ → Result (Unit {0}) → ℕ → Type 0 where
    settled : (left n : ℕ) → Settled (fn n) → Trace left n (fn n) (suc n)
    exhausted : (n : ℕ) → Failed n → Trace zero n (fn n) (suc n)
    stopped :
        (left n : ℕ) → Failed n → wait (suc n) ≡ false → Trace (suc left) n (err canceled) (suc n)
    again :
        (left n m : ℕ) (x : Result (Unit {0}))
        → Failed n
        → wait (suc n) ≡ true
        → Trace left (suc n) x m
        → Trace (suc left) n x m
