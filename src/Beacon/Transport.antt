-- ===== src/Beacon/Transport.antt =====
-- internal/beacon/client.go: doRequest, one request with rate limiting and retries.
pub mod Attempts
use pauli.Common.{
  ℕ, zero, suc, ◌+◌, Bool, true, false, not, ◌||◌, Option, none, some, ◌++◌, ◌==◌, if◌then◌else◌,
  take, ltb, length,
}
use pauli.Common.Int.{ℤ, pos, negsuc}
use pauli.Text.{Text, text, format_uint}
use pauli.Exec.{Error, http_response, retryable, wrap, plain, canceled, Result, ok, err}
use pauli.Beacon.{Fetch}

-- An HTTP response; `none` is a body that cannot be read.
pub record Reply : Type 0 where
  pub status : ℕ
  pub body : Option Text

-- What the request meets, by the number of requests sent so far: the limiter's error (and whether
-- the context is done), whether a request for the path can be made, the response, and the context's
-- error where it ends the backoff's wait.
pub record Transport : Type 0 where
  pub limiter : ℕ → Option (Bool × Error)
  pub create : Text → Option Error
  pub send : Text → ℕ → Result Reply
  pub wait : ℕ → Option Error

-- backoff.ShouldRetry
unfoldable pub should_retry : ℕ → Bool
should_retry status = status == 429 || status == 503

abbrev body_text : Option Text → Text
body_text none = text ""
body_text (some b) = b

abbrev preview : Text → Text
preview b = if ltb 200 (length b) then take 200 b ++ text "..." else b

module _ {A : Type 0} (decode : Text → Result A) (path : Text) where
  abbrev decoded : Result A → Result A
  decoded (ok a) = ok a
  decoded (err e) = err (wrap (text "failed to decode response") e)

  -- readDoRequestResponse, where the status is not one to retry.
  abbrev pub read_body : ℕ → Option Text → Result A
  read_body status none = err (plain (text "failed to read response body"))
  read_body status (some b) =
      if status == 200 then decoded (decode b) else err (http_response status path (preview b))

  abbrev pub retry_error : Reply → Error
  retry_error reply =
      retryable reply.status
        (text "HTTP " ++ (format_uint reply.status ++ (text ": " ++ body_text reply.body)))

  abbrev limited : Bool × Error → Error
  limited (true, e) = wrap (text "rate limiter error: context cancelled") e
  limited (false, e) = wrap (text "rate limiter error: rate: Wait(n=1) exceeded timeout") e

  module _ (t : Transport) where
    abbrev pub wait_first : Option Error → Fetch A → Fetch A
    wait_first none retry n = retry n
    wait_first (some e) retry n = (err e, n)

    -- `left` attempts may follow this one; `retry` is the next attempt.
    abbrev pub or_retry : ℕ → Error → Fetch A → Fetch A
    or_retry zero last retry n = (err last, n)
    or_retry (suc left) last retry n = wait_first (t.wait n) retry n

    abbrev pub answered : ℕ → ℕ → Fetch A → Result Reply → Fetch A
    answered left attempt retry (err e) =
        or_retry left
          (wrap (text "request failed after " ++ (format_uint (attempt + 1) ++ text " attempts")) e)
          retry
    answered left attempt retry (ok reply) =
        if should_retry reply.status
        then or_retry left (retry_error reply) retry
        else (λ n. (read_body reply.status reply.body, n))

    abbrev pub limit_first : Option (Bool × Error) → Fetch A → Fetch A
    limit_first none go n = go n
    limit_first (some e) go n = (err (limited e), n)

    abbrev pub create_first : Option Error → Fetch A → Fetch A
    create_first none go n = go n
    create_first (some e) go n = (err (wrap (text "failed to create request") e), n)

    abbrev pub attempt_once : ℕ → ℕ → Fetch A → Fetch A
    attempt_once left attempt retry n =
        limit_first (t.limiter n)
          (create_first (t.create path) (λ k. answered left attempt retry (t.send path k) (suc k)))
          n

    -- The loop over attempts.
    unfoldable pub attempts : ℕ → ℕ → Fetch A
    attempts zero attempt = attempt_once zero attempt (λ n. (err canceled, n))
    attempts (suc left) attempt = attempt_once (suc left) attempt (attempts left (suc attempt))

    -- doRequest, where maxRetries is not negative.
    unfoldable pub do_request : ℕ → Fetch A
    do_request max_retries = attempts max_retries 0
