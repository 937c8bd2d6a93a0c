-- ===== src/Config/Defaults.antt =====
-- What a configuration is once it has been loaded.
use pauli.Common.{
  ◌≡◌, refl, ◌≢◌, subst, Bool, false, Option, none, some, inl, inr, arith, Bool-cases, [], ◌∷◌,
}
use pauli.Common.Int.{ℤ, pos}
use pauli.Text.{is_empty, Text, text}
use pauli.Exec.{Error, ok}
use pauli.Config.{
  Config, BackfillConf, PostgresConf, ApiConfig, nonpositive, positive_or, is_zero, nonempty_or,
  set_defaults, load, load_api_config, validate, validate_postgres, apply_defaults,
  backfill_defaults, accepted,
}

abbrev pub Positive : ℤ → Type 0
Positive n = nonpositive n ≡ false

positive_or-Positive : (d n : ℤ) → Positive d → Positive (positive_or d n)
positive_or-Positive d n h = elim (Bool-cases (nonpositive n)) [
  | inl low ↦ rw low h
  | inr high ↦ rw high high
]

-- A backfill section that gets anything done: each pass takes at least one slot and one epoch, a
-- pause follows each, and the head is kept at a distance.
abbrev pub Works : BackfillConf → Type 0
Works b =
    (b.lag_behind_head ≢ 0)
    × Positive b.slots_per_pass
    × Positive b.epochs_per_pass
    × Positive b.poll_delay_ms
    × Positive b.idle_poll_delay_ms

abbrev pub Connects : PostgresConf → Type 0
Connects p =
    (is_empty p.host ≡ false)
    × (is_zero p.port ≡ false)
    × (is_empty p.user ≡ false)
    × (is_empty p.database ≡ false)
    × Positive p.max_conns
    × Positive p.ttl_days

abbrev pub Ready : {F : Type 0} → Config F → Type 0
Ready c =
    (is_empty c.beacon_node_url ≡ false)
    × Connects c.postgres
    × Works c.backfill
    × Positive c.polling_interval_slots
    × Positive c.worker_pool_size
    × Positive c.rate_limit.burst
    × Positive c.http.timeout_seconds
    × Positive c.http.max_retries

backfill_defaults-Works : (b : BackfillConf) → Works (backfill_defaults b)
unfolding backfill_defaults
backfill_defaults-Works b = (
  ground arith,
  positive_or-Positive (pos 8) b.slots_per_pass refl,
  positive_or-Positive (pos 2) b.epochs_per_pass refl,
  positive_or-Positive (pos 100) b.poll_delay_ms refl,
  positive_or-Positive (pos 12000) b.idle_poll_delay_ms refl,
)

-- What validatePostgres asks for.
abbrev pub Named : PostgresConf → Type 0
Named p = (is_empty p.host ≡ false) × (is_empty p.user ≡ false) × (is_empty p.database ≡ false)

validate_postgres_sound :
    (p : PostgresConf) → validate_postgres p ≡ none → Named p × (is_zero p.port ≡ false)
unfolding validate_postgres
validate_postgres_sound p h = ground arith

validate_postgres_complete :
    (p : PostgresConf) → Named p → is_zero p.port ≡ false → validate_postgres p ≡ none
unfolding validate_postgres
validate_postgres_complete p h q = ground arith

-- Defaults leave no port of 0.
filled-port : (p : PostgresConf) → is_zero (apply_defaults p).port ≡ false
unfolding apply_defaults
filled-port p = elim (Bool-cases (is_zero p.port)) [
  | inl unset ↦ rw unset refl
  | inr given ↦ rw given given
]

apply_defaults-Connects : (p : PostgresConf) → Named p → Connects (apply_defaults p)
unfolding apply_defaults
apply_defaults-Connects p h = (
  h.0,
  filled-port p,
  h.1,
  h.2,
  positive_or-Positive (pos 10) p.max_conns refl,
  positive_or-Positive (pos 90) p.ttl_days refl,
)

validate_sound :
    {F : Type 0} (c : Config F)
    → validate c ≡ none
    → (is_empty c.beacon_node_url ≡ false) × (validate_postgres c.postgres ≡ none)
unfolding validate
validate_sound c h = ground arith

module _ {F : Type 0} (low : F → Bool) (fifty : F) where
  set_defaults-Ready :
      (c : Config F)
      → is_empty c.beacon_node_url ≡ false
      → Named c.postgres
      → Ready (set_defaults low fifty c)
  unfolding set_defaults
  set_defaults-Ready c url named = (
    url,
    apply_defaults-Connects c.postgres named,
    backfill_defaults-Works c.backfill,
    positive_or-Positive (pos 32) c.polling_interval_slots refl,
    positive_or-Positive (pos 10) c.worker_pool_size refl,
    positive_or-Positive (pos 100) c.rate_limit.burst refl,
    positive_or-Positive (pos 30) c.http.timeout_seconds refl,
    positive_or-Positive (pos 3) c.http.max_retries refl,
  )

  -- A configuration that Load returns names its node, and its database with a host, a port, a user
  -- and a name; connections and their lifetime, lag, pass sizes, poll delays, polling interval,
  -- pool size, burst, timeout and retries are not 0 and not negative.
  pub load-Ready : (c c' : Config F) → load low fifty c ≡ ok c' → Ready c'
  unfolding load
  load-Ready c c' h = go (validate c) refl h
    where
      go : (v : Option Error) → validate c ≡ v → accepted low fifty c v ≡ ok c' → Ready c'
      go none e q =
          let sound = validate_sound c e in
          let same : set_defaults low fifty c ≡ c' = cc in
          subst Ready same
            (set_defaults-Ready c sound.0 (validate_postgres_sound c.postgres sound.1).0)
      go (some error) e q = absurd cc

Named-apply_defaults : (p : PostgresConf) → Named p → Named (apply_defaults p)
unfolding apply_defaults
Named-apply_defaults p h = h

listens : (t : Text) → is_empty (nonempty_or (text ":8080") t) ≡ false
unfolding text
listens [] = refl
listens (c ∷ cs) = refl

-- LoadAPIConfig accepts a configuration that names host, user and database, also without a port
-- and a listen address; what it returns has these, a port and a listen address.
pub load_api_config-accepts :
    (c : ApiConfig)
    → Named c.postgres
    → (filled : ApiConfig) × (load_api_config c ≡ ok filled)
      × Connects filled.postgres
      × (is_empty filled.listen ≡ false)
unfolding load_api_config
load_api_config-accepts c named =
    let connects = apply_defaults-Connects c.postgres named in
    let valid =
      validate_postgres_complete (apply_defaults c.postgres) (Named-apply_defaults c.postgres named)
        connects.1 in
    (
      record { listen = nonempty_or (text ":8080") c.listen; postgres = apply_defaults c.postgres },
      rw valid refl,
      connects,
      listens c.listen,
    )
