-- ===== src/Commands.antt =====
-- cmd/pauli and cmd/pauli-backfill: how the commands put the parts together. log.Fatal ends the
-- process, so what follows it does not run, the deferred calls included: it is an error here.
pub mod Apart
pub mod Backfill
pub mod Monitor
use pauli.Common.{Bool, List}
use pauli.Text.{Text, text}
use pauli.Exec.{Result, ok, err, Exec, pure, lift, annotate, ◌>>=◌}
use pauli.Storage.{Db, World, Repository}
use pauli.Storage.Connection.{Pgx, Store, new_store}
use pauli.Config
use pauli.Config.{Config, load}
use pauli.Migrations
use pauli.Migrations.{Entry, run_migrations}
use pauli.Beacon.{Fetch, Validator, BeaconApi, ExecutionApi}
use pauli.Beacon.Node.{Gets}
use pauli.Beacon.Requests
use pauli.Execution.Client

-- What a command runs on: the open pools, the tables of the indexer, and what else the migrations
-- build.
pub record Process (P S : Type 0) : Type 0 where
  pub pools : P
  pub server : Migrations.State S
  pub world : World

-- What is given to a command: the parsed file, the libraries, and what the clients send.
pub record Setup (F P Pool S : Type 0) : Type 0 where
  pub parsed : Config F
  pub nonpositive_rate : F → Bool
  pub default_rate : F
  pub pgx : Pgx P Pool
  pub server : Migrations.Client (S × Db)
  pub checksum : Text → Text
  pub files : List Entry
  pub repo : Repository
  pub gets : Requests.Client F → Gets
  pub beacon : Requests.Client F → BeaconApi
  pub validator : Requests.Client F → Text → Fetch Validator
  pub execution : Client.Client → ExecutionApi

module _ {P S : Type 0} where
  abbrev pub on_pools : {A : Type 0} → Exec P A → Exec (Process P S) A
  on_pools m p = let (x, pools) = m p.pools in (x, record p { pools = pools })

  -- The schema that the migrations see has the tables of the indexer.
  abbrev pub seen_by_migrations : Process P S → Migrations.State (S × Db)
  seen_by_migrations p = record {
    calls = p.server.calls;
    tables = record {
      schema = (p.server.tables.schema, p.world.db);
      migrations = p.server.tables.migrations;
    };
  }

  abbrev pub left_by_migrations : Migrations.State (S × Db) → Process P S → Process P S
  left_by_migrations s p = record p {
    server = record {
      calls = s.calls;
      tables = record { schema = s.tables.schema.0; migrations = s.tables.migrations };
    };
    world = record p.world { db = s.tables.schema.1 };
  }

  abbrev pub on_server : {A : Type 0} → Exec (Migrations.State (S × Db)) A → Exec (Process P S) A
  on_server m p = let (x, s) = m (seen_by_migrations p) in (x, left_by_migrations s p)

  abbrev pub on_world : {A : Type 0} → Exec World A → Exec (Process P S) A
  on_world m p = let (x, world) = m p.world in (x, record p { world = world })

module _ {F P Pool S : Type 0} where
  unfoldable pub load_config : Setup F P Pool S → Exec (Process P S) (Config F)
  load_config u =
      annotate (text "failed to load configuration")
        (lift (load u.nonpositive_rate u.default_rate u.parsed))

  -- NewStore and RunMigrations.
  unfoldable pub open_store : Setup F P Pool S → Config F → Exec (Process P S) (Store Pool)
  open_store u cfg = do
    store ←
        annotate (text "failed to initialize database store")
          (on_pools (new_store u.pgx cfg.postgres))
    migrated ←
        annotate (text "failed to run database migrations")
          (on_server (run_migrations u.server u.checksum u.files))
    pure store
