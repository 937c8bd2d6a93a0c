-- ===== src/Tests/Requesting.antt =====
-- The theorem on requests and retries, at a server that is busy once.
use pauli.Common.{List, [], ◌∷◌}
use pauli.Beacon.{Validator}
use pauli.Beacon.Validators.{get_validators_at_slot}
use pauli.Common.{none, some, ◌==◌, if◌then◌else◌}
use pauli.Text.{Text, text}
use pauli.Exec.{Result, ok}
use pauli.Common.{ℕ, ◌+◌, ◌*◌, ◌≤◌, arith}
use pauli.Exec.{err, retryable}
use pauli.Beacon.Requests.{get}
use pauli.Beacon.Requests.Chunked.{get_validators_at_slot-count}
use pauli.Beacon.Transport.{Transport, do_request}
use pauli.Beacon.Transport.Attempts.{Bounded, do_request-Bounded}

abbrev busy_once : Transport
busy_once = record {
  limiter = λ n. none;
  send = λ path n. ok (record { status = if n == 0 then 503 else 200; body = some (text "{}") });
  create = λ path. none;
  wait = λ n. none;
}

abbrev keep : Text → Result Text
keep t = ok t

do_request-Bounded_example :
    Bounded keep (text "/eth") busy_once 0 4 (do_request keep (text "/eth") busy_once 3 0)
do_request-Bounded_example = do_request-Bounded keep (text "/eth") busy_once 3 0

-- Two indices are sent in one chunk.
abbrev decode_none : Text → Result (List Validator)
decode_none t = ok []

get_validators_at_slot-count_example :
    (get_validators_at_slot (get (λ body. busy_once) decode_none 3) 9 (3 ∷ 5 ∷ []) 0).1 ≤ 0 + 1 * 4
get_validators_at_slot-count_example =
    get_validators_at_slot-count decode_none (λ body. busy_once) 3 9 1 0 (3 ∷ 5 ∷ []) (omega arith)

-- The first run fails in a way to retry, the second one succeeds.
abbrev second_time : ℕ → Result (Unit {0})
second_time n = if n == 0 then err (retryable 503 (text "busy")) else ok tt
