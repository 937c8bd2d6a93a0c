-- ===== src/Commands/Monitor.antt =====
-- cmd/pauli/main.go: the monitor's command, from its start to the end of the process. The probes
-- are only logged.
pub mod Seeded
use pauli.Common.{ℕ, Bool, List, [], ◌∷◌, if◌then◌else◌}
use pauli.Text.{Text, text}
use pauli.Exec.{ok, Exec, pure, annotate, recover, ◌>>=◌, ◌>>◌}
use pauli.Storage.{World}
use pauli.Storage.Reads.{count_snapshots}
use pauli.Storage.Connection.{Store, close_store, health_check}
use pauli.Config.{Config}
use pauli.Beacon.Node.{is_node_synced}
use pauli.Beacon.Duties.{get_validator}
use pauli.Beacon.Requests
use pauli.Indexing.{fetch}
use pauli.Realtime.{State}
use pauli.Monitor.Startup.{prepare}
use pauli.Commands.{Process, Setup, on_world, load_config, open_store}

-- What main logs last.
pub data Shutdown : Type 0 where
  complete timed_out : Shutdown

module _ {F P Pool S : Type 0} (u : Setup F P Pool S) where
  -- A call whose result is only logged.
  abbrev pub probe : {A : Type 0} → Exec World A → Exec (Process P S) (Unit {0})
  probe m = recover (on_world m) (λ a. pure tt) (λ e. pure tt)

  abbrev pub count_probe : List ℕ → Exec (Process P S) (Unit {0})
  count_probe [] = pure tt
  count_probe (v ∷ vs) = probe (count_snapshots u.repo v)

  abbrev pub validator_probe : Config F → List ℕ → Exec (Process P S) (Unit {0})
  validator_probe cfg [] = pure tt
  validator_probe cfg (v ∷ vs) =
      probe (fetch (get_validator (u.validator (Requests.new_client cfg)) (text "head") v))

  -- What runs before the signal is waited for: the store, and the realtime runner that Start
  -- launches.
  unfoldable pub start_up : Exec (Process P S) (Store Pool × State)
  start_up = do
    cfg ← load_config u
    store ← open_store u cfg
    healthy ← annotate (text "database health check failed") (on_world (health_check u.repo))
    counted ← count_probe cfg.validators
    synced ← probe (fetch (is_node_synced (u.gets (Requests.new_client cfg))))
    fetched ← validator_probe cfg cfg.validators
    state ←
        annotate (text "failed to start monitor")
          (on_world (prepare (record { gets = u.gets (Requests.new_client cfg); repo = u.repo })))
    pure (store, state)

  -- The deferred Close of the store, after Stop has returned or 30 seconds have passed.
  abbrev pub shut_down : Bool → Store Pool → Exec (Process P S) Shutdown
  shut_down in_time store p = (
    ok (if in_time then complete else timed_out),
    record p { pools = close_store u.pgx store p.pools },
  )

  unfoldable pub monitor_main : Bool → Exec (Process P S) Shutdown
  monitor_main in_time = start_up >>= λ (store, state). shut_down in_time store
