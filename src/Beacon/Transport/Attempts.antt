-- ===== src/Beacon/Transport/Attempts.antt =====
-- How often doRequest sends, and where a result comes from.
use pauli.Common.{
  ℕ, zero, suc, ◌+◌, ◌≤◌, ◌≡◌, refl, Bool, false, Option, none, some, arith, Bool-cases, inl, inr,
}
use pauli.Text.{Text}
use pauli.Exec.{canceled, Error, Result, ok, err}
use pauli.Beacon.{Fetch}
use pauli.Beacon.Transport.{
  Reply, Transport, should_retry, read_body, or_retry, answered, limit_first, wait_first,
  create_first, attempt_once, attempts, do_request, retry_error,
}

module _ {A : Type 0} (decode : Text → Result A) (path : Text) (t : Transport) where
  -- The last request was answered by this reply, which is not one to retry, and its body is what is
  -- returned.
  abbrev pub FromReply : Result A → ℕ → Type 0
  FromReply x n =
      (k : ℕ) × ((n ≡ suc k)
        × ((reply : Reply) × ((t.send path k ≡ ok reply)
              × ((should_retry reply.status ≡ false)
                  × (x ≡ read_body decode path reply.status reply.body)))))

  -- From `n` requests on at most `most` are sent, and a value comes from the last reply.
  abbrev pub Bounded : ℕ → ℕ → Result A × ℕ → Type 0
  Bounded n most (ok a, n') = (n' ≤ n + most) × FromReply (ok a) n'
  Bounded n most (err e, n') = n' ≤ n + most

  widen : (n most : ℕ) (x : Result A × ℕ) → Bounded (suc n) most x → Bounded n (suc most) x
  widen n most (ok a, n') h = (omega (arith, h.0), h.1)
  widen n most (err e, n') h = omega (arith, h)

  or_retry-Bounded :
      (left n : ℕ) (last : Error) (retry : Fetch A)
      → ((m : ℕ) → Bounded m left (retry m))
      → Bounded n (suc left) (or_retry decode path t left last retry (suc n))
  or_retry-Bounded zero n last retry h = omega arith
  or_retry-Bounded (suc left) n last retry h = go (t.wait (suc n))
    where
      go :
          (o : Option Error) → Bounded n (suc (suc left)) (wait_first decode path t o retry (suc n))
      go none = widen n (suc left) (retry (suc n)) (h (suc n))
      go (some e) = omega arith

  answered-Bounded :
      (left attempt n : ℕ) (retry : Fetch A) (x : Result Reply)
      → t.send path n ≡ x
      → ((m : ℕ) → Bounded m left (retry m))
      → Bounded n (suc left) (answered decode path t left attempt retry x (suc n))
  answered-Bounded left attempt n retry (err e) sent h = or_retry-Bounded left n _ retry h
  answered-Bounded left attempt n retry (ok reply) sent h =
      elim (Bool-cases (should_retry reply.status)) [
        | inl again ↦ rw again (or_retry-Bounded left n (retry_error decode path reply) retry h)
        | inr final ↦
            rw final (from_reply (read_body decode path reply.status reply.body) final refl)
      ]
    where
      from_reply :
          (x : Result A)
          → should_retry reply.status ≡ false
          → x ≡ read_body decode path reply.status reply.body
          → Bounded n (suc left) (x, suc n)
      from_reply (ok a) final e = (omega arith, (n, (refl, (reply, (sent, (final, e))))))
      from_reply (err e') final e = omega arith

  attempt_once-Bounded :
      (left attempt n : ℕ) (retry : Fetch A)
      → ((m : ℕ) → Bounded m left (retry m))
      → Bounded n (suc left) (attempt_once decode path t left attempt retry n)
  attempt_once-Bounded left attempt n retry h = go (t.limiter n) (t.create path)
    where
      go :
          (o : Option (Bool × Error)) (c : Option Error)
          → Bounded n (suc left) (
              limit_first decode path t o
                (create_first decode path t c
                  (λ k. answered decode path t left attempt retry (t.send path k) (suc k)))
                n)
      go none none = answered-Bounded left attempt n retry (t.send path n) refl h
      go none (some e) = omega arith
      go (some e) c = omega arith

  attempts-Bounded :
      (left attempt n : ℕ) → Bounded n (suc left) (attempts decode path t left attempt n)
  unfolding attempts
  attempts-Bounded zero attempt n =
      attempt_once-Bounded zero attempt n (λ m. (err canceled, m)) (λ m. omega arith)
  attempts-Bounded (suc left) attempt n =
      attempt_once-Bounded (suc left) attempt n (attempts decode path t left (suc attempt))
        (λ m. attempts-Bounded left (suc attempt) m)

  -- doRequest sends at most maxRetries + 1 requests, whatever the limiter, the server and the
  -- context do; and a value that it returns is decoded from the last request's reply, whose status
  -- is not one to retry.
  pub do_request-Bounded :
      (max_retries n : ℕ) → Bounded n (suc max_retries) (do_request decode path t max_retries n)
  unfolding do_request
  do_request-Bounded max_retries n = attempts-Bounded max_retries 0 n
