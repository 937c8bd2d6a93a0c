-- ===== src/Indexing.antt =====
-- internal/monitor/steps/indexing: what both runners share. The children index one block and one
-- epoch.
pub mod Availability
pub mod Calls
pub mod Blocks
pub mod Epochs
use pauli.Common.{ℕ, ◌||◌, Bool, true, false, ◌==◌}
use pauli.Text.{Text, text, contains}
use pauli.Exec.{
  Error, http_response, wrap, retryable, plain, no_rows, canceled, pool_stopped, error_text, Exec,
  ok,
}
use pauli.Storage.{World, Repository, at}
use pauli.Beacon.{Fetch}

-- beacon.IsNotFound: errors.As looks through the wrapping.
unfoldable pub is_not_found : Error → Bool
is_not_found (http_response status path body) = status == 404
is_not_found (wrap context e) = is_not_found e
is_not_found (retryable status message) = false
is_not_found (plain message) = false
is_not_found no_rows = false
is_not_found canceled = false
is_not_found pool_stopped = false

-- rewardsStateNotYetAvailable, on an error that is not nil.
unfoldable pub rewards_state_not_yet_available : Error → Bool
rewards_state_not_yet_available e =
    is_not_found e
    || (contains (error_text e) (text "404")
        || (contains (error_text e) (text "NOT_FOUND")
            || contains (error_text e) (text "missing state")))

-- A call of a client within a step: it counts, and changes no table.
unfoldable pub fetch : {A : Type 0} → Fetch A → Exec World A
fetch m w = let (r, n) = m w.calls in (r, at n w.db)

-- time.Now()
abbrev pub time_now : Repository → Exec World ℕ
time_now r w = (ok (r.clock w.calls), w)
