-- ===== src/Commands/Backfill.antt =====
-- cmd/pauli-backfill/main.go: the one-shot backfill, from its flags to the end of the run. The
-- signal that cancels the run does not come.
pub mod Ended
use mathlib.Core.Option.{map as map_option}
use pauli.Common.{ℕ, ◌-◌, ◌^◌, true, false, Option, none, some, ◌==◌, if◌then◌else◌}
use pauli.Text.{Text, text}
use pauli.Exec.{Result, ok, err, Exec, pure, annotate, ◌>>=◌}
use pauli.Storage.{World, Repository}
use pauli.Storage.Connection.{Store, close_store}
use pauli.Config.{Config, BackfillConf}
use pauli.Beacon.{BeaconApi, ExecutionApi}
use pauli.Beacon.Requests
use pauli.Execution.Client
use pauli.Monitor.Startup.{init_beacon_network_clock}
use pauli.Engine.{Verdict, again, exit, run}
use pauli.Backfill.Runner.{Options, Runner}
use pauli.Backfill.Runner.Driver.{State, driver, background, start}
use pauli.Commands.{Process, Setup, on_world, load_config, open_store}

-- The flags; ^uint64(0) stands for one that is not given.
pub record Flags : Type 0 where
  pub from_slot : ℕ
  pub to_slot : ℕ
  pub from_epoch : ℕ
  pub to_epoch : ℕ

abbrev pub unset : ℕ
unset = 2 ^ 64 - 1

unfoldable pub given : ℕ → Option ℕ
given flag = if flag == unset then none else some flag

abbrev pub options_of : Flags → Options
options_of flags = record {
  start_slot = given flags.from_slot;
  end_slot = given flags.to_slot;
  start_epoch = given flags.from_epoch;
  end_epoch = given flags.to_epoch;
  one_shot = true;
}

-- backfill.New
abbrev pub new_runner :
    BackfillConf → Options → BeaconApi → Option ExecutionApi → Repository → Runner
new_runner cfg opts client exec repo = record {
  cfg = cfg;
  opts = opts;
  client = client;
  exec = exec;
  repo = repo;
  get_head = client.get_head_slot;
  idle = false;
  one_shot_bounds = none;
}

-- Where Start returns, after which the command logs that it has finished either way: before its loop,
-- for want of its bounds, or at the end of the run; or it has not returned within the iterations.
pub data Ending : Type 0 where
  not_frozen ended running : Ending

abbrev pub ending_of : Verdict × State → Result Ending × World
ending_of (exit, s) = (ok ended, s.1)
ending_of (again, s) = (ok running, s.1)

abbrev pub run_from : ℕ → Result Runner × World → Result Ending × World
run_from n (ok r, w) = ending_of (run background (driver background) n (r, w))
run_from n (err e, w) = (ok not_frozen, w)

-- Start, with at most `n` iterations of its loop.
unfoldable pub start_backfill : ℕ → Runner → Exec World Ending
start_backfill n r w = run_from n (start r w)

module _ {F P Pool S : Type 0} (u : Setup F P Pool S) (flags : Flags) where
  abbrev pub runner_of : Config F → Runner
  runner_of cfg =
      new_runner (record cfg.backfill { enabled = true }) (options_of flags)
        (u.beacon (Requests.new_client cfg)) (map_option u.execution (Client.new_client cfg)) u.repo

  -- The deferred Close of the store.
  abbrev pub closed : Store Pool → Ending → Exec (Process P S) Ending
  closed store ending p = (ok ending, record p { pools = close_store u.pgx store p.pools })

  unfoldable pub backfill_main : ℕ → Exec (Process P S) Ending
  backfill_main n = do
    loaded ← load_config u
    store ← open_store u loaded
    genesis_time ← annotate (text "beacon network init failed") (
        on_world (
          init_beacon_network_clock
            (record { gets = u.gets (Requests.new_client loaded); repo = u.repo })))
    ending ← on_world (start_backfill n (runner_of loaded))
    closed store ending
