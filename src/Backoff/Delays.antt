-- ===== src/Backoff/Delays.antt =====
-- pkg/backoff/backoff.go: the size of the delays.
use pauli.Common.{ℕ, suc, ◌≤◌, ◌<◌, ◌^◌, ◌≡◌, Bool-cases, false, inl, inr, arith, ◌==◌}
use pauli.Common.Int.{pos, ◌≤ℤ◌}
use pauli.Backoff.{Floats, Backoff, grown, capped, next_delay}

-- What a conversion to an integer gives for a number that does not exceed a limit: NaN compares
-- false with every limit, and is no number. Below 2^53 integers are exact.
pub record Truncation (fl : Floats) : Type 1 where
  pub IsNumber : fl.F → Type 0
  pub truncate_exact : (n : ℕ) → n < 2 ^ 53 → fl.truncate (fl.of_ℕ n) ≡ pos n
  pub truncate_below :
      (x : fl.F) (n : ℕ)
      → n < 2 ^ 53
      → IsNumber x
      → fl.exceeds x (fl.of_ℕ n) ≡ false
      → fl.truncate x ≤ℤ pos n

module _ (fl : Floats) (law : Truncation fl) where
  -- If the initial delay is within the maximum, and the grown delay is a number, the next delay is
  -- at most the maximum, and the attempt is counted.
  pub next_delay-AtMost :
      (r : fl.F) (b : Backoff fl)
      → b.cfg.initial_delay ≤ b.cfg.max_delay
      → b.cfg.max_delay < 2 ^ 53
      → law.IsNumber (grown fl b r)
      → ((next_delay fl r b).0 ≤ℤ pos b.cfg.max_delay)
        × ((next_delay fl r b).1.attempts ≡ suc b.attempts)
  unfolding next_delay
  next_delay-AtMost r b small exact number = (size, omega arith)
    where
      later : fl.truncate (capped fl b (grown fl b r)) ≤ℤ pos b.cfg.max_delay
      later = elim (Bool-cases (fl.exceeds (grown fl b r) (fl.of_ℕ b.cfg.max_delay))) [
        | inl above ↦ rw above (rw (law.truncate_exact b.cfg.max_delay exact) (omega arith))
        | inr below ↦ rw below (law.truncate_below _ b.cfg.max_delay exact number below)
      ]

      size : (next_delay fl r b).0 ≤ℤ pos b.cfg.max_delay
      size = elim (Bool-cases (b.attempts == 0)) [
        | inl first ↦ rw first (omega (arith, small))
        | inr grows ↦ rw grows later
      ]
