-- ===== src/Backoff.antt =====
-- pkg/backoff/backoff.go: delays that grow with the attempts, and the retries of a function. The
-- floating-point operations and the random numbers are given.
pub mod Delays
pub mod Retries
use pauli.Common.{ℕ, zero, suc, ◌+◌, Bool, true, false, ◌==◌, if◌then◌else◌}
use pauli.Common.Int.{ℤ, pos, negsuc}
use pauli.Text.{Text}
use pauli.Exec.{
  Error, http_response, retryable, canceled, pool_stopped, plain, no_rows, wrap, Result, ok, err,
  Exec,
}

-- float64, and the operations that the delays use.
pub record Floats : Type 1 where
  pub F : Type 0
  pub of_ℕ : ℕ → F
  pub two : F
  pub one_fifth : F
  pub mul : F → F → F
  pub pow : F → F → F
  pub exceeds : F → F → Bool
  -- time.Duration(f)
  pub truncate : F → ℤ
  -- 1.0 + (r*2-1)*factor, for the random number r
  pub jitter : (r factor : F) → F

module _ (fl : Floats) where
  open fl use {F, of_ℕ, two, one_fifth, mul, pow, exceeds, truncate, jitter}

  -- Durations are nanoseconds.
  pub record Config : Type 0 where
    pub initial_delay : ℕ
    pub max_delay : ℕ
    pub multiplier : F
    pub jitter_factor : F

  abbrev pub default_config : Config
  default_config = record {
    initial_delay = 100000000;
    max_delay = 30000000000;
    multiplier = two;
    jitter_factor = one_fifth;
  }

  pub record Backoff : Type 0 where
    pub cfg : Config
    pub attempts : ℕ

  abbrev pub new : Config → Backoff
  new cfg = record { cfg = cfg; attempts = 0 }

  abbrev pub new_default : Backoff
  new_default = new default_config

  abbrev pub reset : Backoff → Backoff
  reset b = record b { attempts = 0 }

  -- The delay of a later attempt, before it is cut at the maximum.
  abbrev pub grown : Backoff → F → F
  grown b r =
      mul (mul (of_ℕ b.cfg.initial_delay) (pow b.cfg.multiplier (of_ℕ b.attempts)))
        (jitter r b.cfg.jitter_factor)

  abbrev pub capped : Backoff → F → F
  capped b delay = if exceeds delay (of_ℕ b.cfg.max_delay) then of_ℕ b.cfg.max_delay else delay

  -- `r` is the random number that is drawn.
  unfoldable pub next_delay : F → Backoff → ℤ × Backoff
  next_delay r b = (
    if b.attempts == 0 then pos b.cfg.initial_delay else truncate (capped b (grown b r)),
    record b { attempts = b.attempts + 1 },
  )

-- A type assertion, which does not look through a wrapped error.
abbrev pub is_retryable : Error → Bool
is_retryable (retryable status message) = true
is_retryable (http_response status path body) = false
is_retryable (wrap context e) = false
is_retryable (plain message) = false
is_retryable no_rows = false
is_retryable canceled = false
is_retryable pool_stopped = false

-- The function to retry, and whether a wait completes. The state is the number of runs so far; what
-- a run returns, and whether the wait after it completes, is a function of that number.
module _ (fn : ℕ → Result (Unit {0})) (wait : ℕ → Bool) where
  abbrev pub or_wait : ℕ → Error → Exec ℕ (Unit {0}) → Exec ℕ (Unit {0})
  or_wait zero last again n = (err last, n)
  or_wait (suc left) last again n = if wait n then again n else (err canceled, n)

  abbrev pub after_run : ℕ → Result (Unit {0}) → Exec ℕ (Unit {0}) → Exec ℕ (Unit {0})
  after_run left (ok u) again n = (ok u, n)
  after_run left (err e) again n = if is_retryable e then or_wait left e again n else (err e, n)

  -- The loop, where `left` runs may follow the next one.
  unfoldable pub retries : ℕ → Exec ℕ (Unit {0})
  retries zero n = after_run zero (fn n) (λ k. (err canceled, k)) (suc n)
  retries (suc left) n = after_run (suc left) (fn n) (retries left) (suc n)

  -- With a negative maxRetries the loop has no round, and lastErr is nil.
  unfoldable pub retry : ℤ → Exec ℕ (Unit {0})
  retry (pos max_retries) n = retries max_retries n
  retry (negsuc k) n = (ok tt, n)
