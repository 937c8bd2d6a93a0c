-- ===== src/Monitor/Startup.antt =====
-- monitor.go and utility.go: what Start does before the goroutines run. The GET requests are
-- given.
use pauli.Common.{ℕ, Option, none, some}
use pauli.Exec.{Exec, pure, recover, ◌>>=◌, ◌>>◌}
use pauli.Storage.{World, Repository}
use pauli.Storage.Progress.{max_indexed_slot}
use pauli.Indexing.{fetch}
use pauli.Text.{text}
use pauli.Beacon.Node.{Gets, get_genesis, get_finality_checkpoints, is_node_synced}
use pauli.Realtime.{State, new_state}

pub record Startup : Type 0 where
  pub gets : Gets
  pub repo : Repository

module _ (s : Startup) where
  -- The genesis time that the network's clock gets; a failure of the checkpoints is only logged.
  unfoldable pub init_beacon_network_clock : Exec World ℕ
  init_beacon_network_clock = do
    genesis ← fetch (get_genesis s.gets)
    recover (fetch (get_finality_checkpoints s.gets (text "head"))) (λ _. pure tt) (λ e. pure tt)
    pure genesis.genesis_time

  -- The answer is only logged.
  unfoldable pub log_node_sync_status : Exec World (Unit {0})
  log_node_sync_status = recover (fetch (is_node_synced s.gets)) (λ _. pure tt) (λ e. pure tt)

  -- SetLastProcessedSlot, where some slot has been indexed.
  unfoldable pub set_last_processed_slot : Option ℕ → State → State
  set_last_processed_slot none r = r
  set_last_processed_slot (some slot) r = record r { last_processed_slot = slot }

  -- The realtime runner that Start launches, or the error it returns.
  unfoldable pub prepare : Exec World State
  prepare = do
    init_beacon_network_clock
    log_node_sync_status
    seed ← recover (max_indexed_slot s.repo) pure (λ e. pure none)
    λ w. pure (set_last_processed_slot seed (new_state w)) w
