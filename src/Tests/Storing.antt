-- ===== src/Tests/Storing.antt =====
-- The theorems on texts, settings and the repository, at concrete inputs.
use pauli.Common.{ℕ, ◌≡◌, refl, [], ◌∷◌, arith, true, false, Bool, zero, suc}
use pauli.Common.Int.{pos}
use pauli.Text.{text}
use pauli.Exec.{ok}
use pauli.Exec.Post.{Post}
use pauli.Storage.{slot}
use pauli.Storage.Progress.{first_unindexed}
use pauli.Storage.Progress.Gaps.{Found, first_unindexed-Found}
use pauli.Storage.Records.{save_validator_epoch_records}
use pauli.Storage.Records.Upsert.{find_record, HasRewards, save_validator_epoch_records-HasRewards}
use pauli.Config.{Config, PostgresConf, set_defaults, validate, validate_postgres, load}
use pauli.Config.Defaults.{Ready, load-Ready}
use pauli.Tests.Fixtures.{repo, start, bare_row, conf}

one_row-HasRewards : HasRewards (find_record 3 1 start.db.records)
unfolding find_record
one_row-HasRewards = ((λ e. cc), (λ e. cc), (λ e. cc), (λ e. cc))

first_unindexed-Found_example :
    Post (Found slot 4 10 start) (λ w'. w'.db ≡ start.db) (first_unindexed repo slot 4 9 start)
first_unindexed-Found_example = first_unindexed-Found repo slot 4 9 start (omega arith)

save_validator_epoch_records-HasRewards_example :
    HasRewards
      (find_record 3 1 (save_validator_epoch_records repo (bare_row ∷ []) start).1.db.records)
save_validator_epoch_records-HasRewards_example =
    save_validator_epoch_records-HasRewards repo (bare_row ∷ []) 3 1 start one_row-HasRewards

abbrev pub postgres : PostgresConf
postgres = record {
  host = text "localhost";
  port = pos 5432;
  user = text "pauli";
  password = text "p";
  database = text "pauli";
  ssl_mode = text "disable";
  max_conns = pos 0;
  ttl_days = pos 0;
}

abbrev pub settings : Config ℕ
settings = record {
  beacon_node_url = text "http://localhost:5052";
  beacon_api_key = [];
  execution_node_url = [];
  execution_api_key = [];
  execution_auth_header = [];
  validators = [];
  polling_interval_slots = pos 0;
  slot_duration_seconds = pos 0;
  worker_pool_size = pos 0;
  rate_limit = record { requests_per_second = 0; burst = pos 0 };
  http = record { timeout_seconds = pos 0; max_idle_conns = pos 0; max_retries = pos 0 };
  database_driver = [];
  postgres = postgres;
  backfill = conf;
}

abbrev pub zero_test : ℕ → Bool
zero_test zero = true
zero_test (suc n) = false

pub loaded : load zero_test 50 settings ≡ ok (set_defaults zero_test 50 settings)
unfolding load validate validate_postgres text
loaded = refl

load-Ready_example : Ready (set_defaults zero_test 50 settings)
load-Ready_example = load-Ready zero_test 50 settings (set_defaults zero_test 50 settings) loaded
