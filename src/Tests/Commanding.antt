-- ===== src/Tests/Commanding.antt =====
-- The commands, over a server that answers and a node with a few slots.
use pauli.Common.{[], false, ℕ, suc, ◌-◌, ◌≡◌}
use pauli.Text.{Text, text}
use pauli.Exec.{ok, Result}
use pauli.Exec.Post.{Post}
use pauli.Storage.Connection.{Pgx}
use pauli.Storage.{Db, answered}
use pauli.Migrations
use pauli.Migrations.{run_migrations}
use pauli.Common.Int.{pos}
use pauli.Config.{Config, set_defaults}
use pauli.Commands.{Process, Setup, open_store}
use pauli.Commands.Backfill.{Flags, unset}
use pauli.Commands.Monitor.{start_up}
use pauli.Commands.Monitor.Seeded.{Started, start_up-Started}
use pauli.Beacon.Node.{Checkpoint}
use pauli.Tests.Fixtures.{repo, start, node, replies, header, validator, two_validators}
use pauli.Tests.Storing.{settings, zero_test, loaded}
use pauli.Tests.Migrating.{two_files, sum, empty}

-- The state of pgxpool is the number of open pools.
abbrev pgx : Pgx ℕ (Unit {0})
pgx = record {
  parse_config = λ s. ok (record { conn_string = s; max_conns = pos 4 });
  new_with_config = λ c n. (ok tt, suc n);
  close_pool = λ p n. n - 1;
}

abbrev checkpoint : Checkpoint
checkpoint = record { epoch = 2; root = text "0x" }

-- A server on which every migration empties the blocks.
abbrev emptying : Text → ℕ × Db → Result (ℕ × Db)
emptying stmt (n, d) = ok (suc n, record d { blocks = [] })

abbrev emptier : Migrations.Client (ℕ × Db)
emptier = record { fate = λ n. answered; run = emptying; clock = λ n. 9 }

abbrev setup : Setup ℕ ℕ (Unit {0}) ℕ
setup = record {
  parsed = settings;
  nonpositive_rate = zero_test;
  default_rate = 50;
  pgx = pgx;
  server = emptier;
  checksum = sum;
  files = two_files;
  repo = repo;
  gets = λ c. record {
    get_list = λ path. replies two_validators;
    get_checkpoints = λ path. replies (record {
      previous_justified = checkpoint;
      current_justified = checkpoint;
      finalized = checkpoint;
    });
    get_header = λ path. replies header;
    get_genesis_response = λ path. replies (record {
      genesis_time = 1600;
      genesis_validators_root = text "0x";
      genesis_fork_version = text "0x";
    });
    get_syncing = λ path. replies (record {
      head_slot = 70;
      sync_distance = 0;
      is_syncing = false;
      is_optimistic = false;
      el_offline = false;
    });
  };
  beacon = λ c. node;
  validator = λ c path. replies (validator 3);
  execution = λ c. record { priority_fees_wei_decimal_string = λ n. replies (text "7") };
}

abbrev process : Process ℕ ℕ
process = record { pools = 0; server = empty; world = start }

-- From the configured slot 4 to slot 5, and from epoch 1 to epoch 1.
abbrev flags : Flags
flags = record { from_slot = unset; to_slot = 5; from_epoch = unset; to_epoch = 1 }

abbrev used : Config ℕ
used = set_defaults zero_test 50 settings

start_up-Started_example :
    Post
      (Started repo (open_store setup used process).1.world.db)
      (λ p'. p'.world.db ≡ (open_store setup used process).1.world.db)
      (start_up setup process)
start_up-Started_example = start_up-Started setup used loaded process
