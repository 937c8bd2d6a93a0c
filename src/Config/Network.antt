-- ===== src/Config/Network.antt =====
-- internal/config/blockchain_network.go: the pacing of the realtime runner. Durations are in
-- nanoseconds, the genesis time is an instant, 0 before it is set.
use pauli.Common.{ℕ, ◌*◌, ◌≤◌, ◌<◌, ◌^◌, ◌≡◌, Bool, if◌then◌else◌, ltb, lt→ltb}
use pauli.Common.Int.{ℤ, pos, negsuc, ltb_ℤ, i64_exact}
use pauli.Exec.{canceled, Result, ok, err}
use pauli.Config.{Config, slot_duration, slots_per_epoch, times}

pub record BlockchainNetwork : Type 0 where
  pub slot_duration : ℤ
  pub polling_interval_slots : ℤ
  pub slots_per_epoch : ℕ
  pub genesis_time : ℕ

unfoldable pub new_blockchain_network : {F : Type 0} → Config F → BlockchainNetwork
new_blockchain_network c = record {
  slot_duration = slot_duration c;
  polling_interval_slots = c.polling_interval_slots;
  slots_per_epoch = slots_per_epoch;
  genesis_time = 0;
}

abbrev pub set_genesis_time : ℕ → BlockchainNetwork → BlockchainNetwork
set_genesis_time t n = record n { genesis_time = t }

-- At least one slot.
abbrev pub poll_slots : ℤ → ℕ
poll_slots (pos n) = if ltb 0 n then n else 1
poll_slots (negsuc n) = 1

unfoldable pub poll_interval : BlockchainNetwork → ℤ
poll_interval n = times (poll_slots n.polling_interval_slots) n.slot_duration

-- Whether the timer fires before the context is done, for a duration.
unfoldable pub wait_poll_interval : (ℤ → Bool) → BlockchainNetwork → Result (Unit {0})
wait_poll_interval fires n =
    let d = poll_interval n in
    if ltb_ℤ (pos 0) d then (if fires d then ok tt else err canceled) else ok tt

-- For a slot of `secs` seconds and an interval of `slots` slots, at least one each and not beyond an
-- int64 of nanoseconds, the interval is their product.
pub poll_interval-exact :
    (n : BlockchainNetwork) (secs slots : ℕ)
    → n.slot_duration ≡ pos (1000000000 * secs)
    → n.polling_interval_slots ≡ pos slots
    → 1 ≤ slots
    → slots * (1000000000 * secs) < 2 ^ 63
    → poll_interval n ≡ pos (slots * (1000000000 * secs))
unfolding poll_interval
poll_interval-exact n secs slots d p many fits =
    rw (d, p, lt→ltb 0 slots many) (i64_exact (pos (slots * (1000000000 * secs))) fits)
