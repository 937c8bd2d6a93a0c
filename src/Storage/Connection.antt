-- ===== src/Storage/Connection.antt =====
-- internal/storage/postgres/client.go, the constructor of repository.go and internal/store/factory.go:
-- opening and closing the database. pgxpool is given.
use pauli.Storage.{Db, World, Repository, query}
use pauli.Common.{true, ℕ, ◌++◌, if◌then◌else◌}
use pauli.Common.Int.{ℤ, pos, ltb_ℤ}
use pauli.Text.{Text, text}
use pauli.Text.Ints.{format_int}
use pauli.Exec.{Error, err, Result, Exec, pure, lift, annotate, recover, ◌>>=◌}
use pauli.Config.{PostgresConf}

-- What is set of a pgxpool.Config after it is parsed.
pub record PoolConfig : Type 0 where
  pub conn_string : Text
  pub max_conns : ℤ

-- pgxpool: parsing, opening and closing a pool, over a state that has the open pools.
pub record Pgx (S Pool : Type 0) : Type 0 where
  pub parse_config : Text → Result PoolConfig
  pub new_with_config : PoolConfig → Exec S Pool
  pub close_pool : Pool → S → S

pub record Client (Pool : Type 0) : Type 0 where
  pub pool : Pool
  pub ttl_days : ℤ

-- postgres.Store; its repository is one over the client.
pub record Store (Pool : Type 0) : Type 0 where
  pub client : Client Pool
  pub repo : Client Pool

unfoldable pub conn_string_of : PostgresConf → Text
conn_string_of cfg =
    text "postgres://"
    ++ (cfg.user
        ++ (text ":"
            ++ (cfg.password
                ++ (text "@"
                    ++ (cfg.host
                        ++ (text ":"
                            ++ (format_int cfg.port
                                ++ (text "/"
                                    ++ (cfg.database ++ (text "?sslmode=" ++ cfg.ssl_mode))))))))))

abbrev pub with_max_conns : ℤ → PoolConfig → PoolConfig
with_max_conns n c = if ltb_ℤ (pos 0) n then record c { max_conns = n } else c

module _ {S Pool : Type 0} (pgx : Pgx S Pool) where
  unfoldable pub new_client : PostgresConf → Exec S (Client Pool)
  new_client cfg = do
    parsed ←
        annotate (text "failed to parse postgres config")
          (lift (pgx.parse_config (conn_string_of cfg)))
    pool ←
        annotate (text "failed to connect to postgres")
          (pgx.new_with_config (with_max_conns cfg.max_conns parsed))
    pure (record { pool = pool; ttl_days = cfg.ttl_days })

  abbrev pub close_client : Client Pool → S → S
  close_client c s = pgx.close_pool c.pool s

  abbrev new_repository : Client Pool → Exec S (Client Pool)
  new_repository c = pure c

  abbrev pub closing : Client Pool → Error → Exec S (Store Pool)
  closing c e s = (err e, close_client c s)

  unfoldable pub new_store : PostgresConf → Exec S (Store Pool)
  new_store cfg = new_client cfg >>= λ client.
      recover (new_repository client) (λ repo. pure (record { client = client; repo = repo }))
        (closing client)

  -- Store.Close; the repository has nothing to close.
  unfoldable pub close_store : Store Pool → S → S
  close_store store s = close_client store.client s

-- SELECT 1
abbrev pub select_one : Db → ℕ
select_one db = 1

-- postgres.Client.HealthCheck
unfoldable pub health_check : Repository → Exec World (Unit {0})
health_check r =
    annotate (text "postgres health check failed") (query r true select_one) >>= λ one. pure tt
