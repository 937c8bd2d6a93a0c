-- ===== src/Config.antt =====
-- internal/config: the settings, their defaults and their validation.
pub mod Defaults
pub mod Network
use pauli.Common.{
  ℕ, ◌*◌, Bool, true, false, Option, List, [], ◌∷◌, ◌++◌, ◌==◌, ◌-◌, ◌||◌, suc, some, none, ltb,
  leb, if◌then◌else◌,
}
use pauli.Common.Int.{ℤ, pos, negsuc, ltb_ℤ, i64}
use pauli.Text.{is_empty, Text, text, text_eq}
use pauli.Exec.{Error, plain, wrap, Result, ok, err}

-- config.BackfillConf; an `int` of the source is an integer.
pub record BackfillConf : Type 0 where
  pub enabled : Bool
  pub start_slot : ℕ
  pub start_epoch : ℕ
  pub end_slot : Option ℕ
  pub end_epoch : Option ℕ
  pub lag_behind_head : ℕ
  pub slots_per_pass : ℤ
  pub epochs_per_pass : ℤ
  pub poll_delay_ms : ℤ
  pub idle_poll_delay_ms : ℤ

-- config.SlotsPerEpoch
abbrev pub slots_per_epoch : ℕ
slots_per_epoch = 32

pub record HttpConf : Type 0 where
  pub timeout_seconds : ℤ
  pub max_idle_conns : ℤ
  pub max_retries : ℤ

pub record PostgresConf : Type 0 where
  pub host : Text
  pub port : ℤ
  pub user : Text
  pub password : Text
  pub database : Text
  pub ssl_mode : Text
  pub max_conns : ℤ
  pub ttl_days : ℤ

-- The type of RequestsPerSecond, a float64, is a parameter.
pub record RateLimitConf (Float : Type 0) : Type 0 where
  pub requests_per_second : Float
  pub burst : ℤ

pub record Config (Float : Type 0) : Type 0 where
  pub beacon_node_url : Text
  pub beacon_api_key : Text
  pub execution_node_url : Text
  pub execution_api_key : Text
  pub execution_auth_header : Text
  pub validators : List ℕ
  pub polling_interval_slots : ℤ
  pub slot_duration_seconds : ℤ
  pub worker_pool_size : ℤ
  pub rate_limit : RateLimitConf Float
  pub http : HttpConf
  pub database_driver : Text
  pub postgres : PostgresConf
  pub backfill : BackfillConf

-- n <= 0
abbrev pub nonpositive : ℤ → Bool
nonpositive (pos n) = n == 0
nonpositive (negsuc n) = true

-- `if n <= 0 { n = d }`
abbrev pub positive_or : ℤ → ℤ → ℤ
positive_or d n = if nonpositive n then d else n

abbrev pub nonempty_or : Text → Text → Text
nonempty_or d s = if is_empty s then d else s

abbrev pub is_zero : ℤ → Bool
is_zero (pos n) = n == 0
is_zero (negsuc n) = false

-- Durations are in nanoseconds; products of an int64 wrap.
abbrev pub times : ℕ → ℤ → ℤ
times k (pos n) = i64 (pos (k * n))
times k (negsuc n) = i64 (negsuc (k * suc n - 1))

unfoldable pub poll_delay : BackfillConf → ℤ
poll_delay b = if nonpositive b.poll_delay_ms then pos 100000000 else times 1000000 b.poll_delay_ms

unfoldable pub idle_poll_delay : BackfillConf → ℤ
idle_poll_delay b =
    if nonpositive b.idle_poll_delay_ms then pos 12000000000 else times 1000000 b.idle_poll_delay_ms

unfoldable pub timeout : HttpConf → ℤ
timeout h = times 1000000000 h.timeout_seconds

unfoldable pub slot_duration : {F : Type 0} → Config F → ℤ
slot_duration c = times 1000000000 (positive_or (pos 12) c.slot_duration_seconds)

-- PostgresConf.ApplyDefaults
unfoldable pub apply_defaults : PostgresConf → PostgresConf
apply_defaults p = record p {
  port = if is_zero p.port then pos 5432 else p.port;
  ssl_mode = nonempty_or (text "disable") p.ssl_mode;
  max_conns = positive_or (pos 10) p.max_conns;
  ttl_days = positive_or (pos 90) p.ttl_days;
}

unfoldable pub backfill_defaults : BackfillConf → BackfillConf
backfill_defaults b = record b {
  lag_behind_head = if b.lag_behind_head == 0 then 4 else b.lag_behind_head;
  slots_per_pass = positive_or (pos 8) b.slots_per_pass;
  epochs_per_pass = positive_or (pos 2) b.epochs_per_pass;
  poll_delay_ms = positive_or (pos 100) b.poll_delay_ms;
  idle_poll_delay_ms = positive_or (pos 12000) b.idle_poll_delay_ms;
}

-- validatePostgres: the first field that is missing.
unfoldable pub validate_postgres : PostgresConf → Option Error
validate_postgres p =
    if is_empty p.host
    then some (plain (text "postgres host is required"))
    else if is_zero p.port
    then some (plain (text "postgres port is required"))
    else if is_empty p.user
    then some (plain (text "postgres user is required"))
    else if is_empty p.database
    then some (plain (text "postgres database is required"))
    else none

abbrev unsupported : Text → Error
unsupported driver =
    plain (text "unsupported database_driver: " ++ (driver ++ text " (only postgres is supported)"))

unfoldable pub validate : {F : Type 0} → Config F → Option Error
validate c =
    if is_empty c.beacon_node_url
    then some (plain (text "beacon_node_url is required"))
    else if is_empty c.database_driver || text_eq c.database_driver (text "postgres")
    then validate_postgres c.postgres
    else if text_eq c.database_driver (text "scylladb")
    then some
        (plain (text "database_driver \"scylladb\" is no longer supported; use postgres only"))
    else some (unsupported c.database_driver)

abbrev invalid : Error → Error
invalid = wrap (text "invalid configuration")

-- The float64's test against 0 and its default 50 are given.
module _ {F : Type 0} (low : F → Bool) (fifty : F) where
  unfoldable pub set_defaults : Config F → Config F
  set_defaults c = record c {
    polling_interval_slots = positive_or (pos 32) c.polling_interval_slots;
    worker_pool_size = positive_or (pos 10) c.worker_pool_size;
    rate_limit = record {
      requests_per_second =
          if low c.rate_limit.requests_per_second then fifty else c.rate_limit.requests_per_second;
      burst = positive_or (pos 100) c.rate_limit.burst;
    };
    http = record {
      timeout_seconds = positive_or (pos 30) c.http.timeout_seconds;
      max_idle_conns = positive_or (pos 100) c.http.max_idle_conns;
      max_retries = positive_or (pos 3) c.http.max_retries;
    };
    database_driver = nonempty_or (text "postgres") c.database_driver;
    postgres = apply_defaults c.postgres;
    backfill = backfill_defaults c.backfill;
  }

  abbrev accepted : Config F → Option Error → Result (Config F)
  accepted c none = ok (set_defaults c)
  accepted c (some e) = err (invalid e)

  -- Load, from the file's parsed contents on.
  unfoldable pub load : Config F → Result (Config F)
  load c = accepted c (validate c)

-- config.APIConfig
pub record ApiConfig : Type 0 where
  pub listen : Text
  pub postgres : PostgresConf

abbrev api_accepted : ApiConfig → Option Error → Result ApiConfig
api_accepted c none = ok c
api_accepted c (some e) = err (invalid e)

-- LoadAPIConfig, from the file's parsed contents on.
unfoldable pub load_api_config : ApiConfig → Result ApiConfig
load_api_config c =
    let filled = record c {
      listen = nonempty_or (text ":8080") c.listen;
      postgres = apply_defaults c.postgres;
    } in
    api_accepted filled (validate_postgres filled.postgres)
