-- ===== src/Realtime.antt =====
-- steps/realtime, steps/env.go, steps/job.go and runner/realtime: the chain of steps that follows
-- the head of the chain, and the jobs that it queues.
pub mod Heads
use pauli.Common.{
  ℕ, ◌+◌, ◌/◌, ◌%◌, ◌^◌, ◌-◌, Bool, true, false, not, ◌&&◌, ◌||◌, Option, none, some, List, [], ◌∷◌,
  ◌++◌, ◌==◌, if◌then◌else◌,
}
use pauli.Common.Int.{pos}
use pauli.Exec.{Result, ok, err, Exec, pure, ◌>>=◌, ◌>>◌}
use pauli.Storage.{World, Repository, at}
use pauli.Storage.Progress.{is_epoch_indexed, mark_slot_indexed}
use pauli.Beacon.{Fetch, BeaconApi, ExecutionApi}
use pauli.Config.{slots_per_epoch}
use pauli.Indexing.{fetch}
use pauli.Indexing.Blocks.{BlockIndexer, index_block_at_slot}
use pauli.Indexing.Epochs.{index_epoch_at_boundary}
use pauli.Engine.{Step, Context, Runner, run_step_chain}

-- steps.Env, less its context.
pub record Env : Type 0 where
  pub head_slot : ℕ
  pub validator_indices : List ℕ
  pub rewards_epoch : Option ℕ
  pub defer_last_processed_commit : Bool

-- NewEnv; Reset leaves the same.
unfoldable pub new_env : Env
new_env = record {
  head_slot = 0;
  validator_indices = [];
  rewards_epoch = none;
  defer_last_processed_commit = false;
}

unfoldable pub reset : Env → Env
reset e = new_env

-- The steps that run on a worker.
pub data AsyncStep : Type 0 where
  attestation_rewards block_indexer : AsyncStep

-- steps.Job
pub record Job : Type 0 where
  pub step : AsyncStep
  pub env : Env

-- realtime.Runner: the fields that stay, and those that change. The queue is seen from the
-- producer: the jobs accepted so far, the last one first.
pub record Settings : Type 0 where
  pub client : BeaconApi
  pub exec : Option ExecutionApi
  pub repo : Repository
  pub get_head : Fetch ℕ
  pub validators : List ℕ
  -- What Pool.Enqueue answers to the call with this number.
  pub pool : ℕ → Result (Unit {0})

pub record State : Type 0 where
  pub env : Env
  pub last_processed_slot : ℕ
  pub jobs : List Job
  pub world : World

abbrev on_world : {A : Type 0} → Exec World A → Exec State A
on_world m s = let (r, w) = m s.world in (r, record s { world = w })

abbrev set_env : Env → Exec State (Unit {0})
set_env e s = (ok tt, record s { env = e })

-- isConsensusEpochBoundarySlot; the sum wraps as a uint64.
unfoldable pub is_consensus_epoch_boundary_slot : ℕ → Bool
is_consensus_epoch_boundary_slot head =
    head % slots_per_epoch == 0 || ((head + 1) % 2 ^ 64) % slots_per_epoch == 0

abbrev pub no_epoch : Env → Env
no_epoch e = record e { rewards_epoch = none }

module _ (c : Settings) where
  -- RealtimeEnvBootstrap.Run
  unfoldable pub bootstrap_run : Exec State Bool
  bootstrap_run = do
    head ← on_world (fetch c.get_head)
    λ s. (
      ok false,
      record s { env = record s.env { head_slot = head; validator_indices = c.validators } },
    )

  -- AttestationRewards.Run, from the finalized epoch on.
  abbrev schedule_epoch : ℕ → Exec State Bool
  schedule_epoch finalized = on_world (is_epoch_indexed c.repo finalized) >>= λ indexed s.
      if indexed
      then (ok false, record s { env = no_epoch s.env })
      else (ok true, record s { env = record s.env { rewards_epoch = some finalized } })

  unfoldable pub attestation_rewards_run : Exec State Bool
  attestation_rewards_run s =
      if s.env.head_slot == s.last_processed_slot
        || (not (is_consensus_epoch_boundary_slot s.env.head_slot)
            || s.env.head_slot / slots_per_epoch == 0)
      then (ok false, record s { env = no_epoch s.env })
      else (on_world (fetch c.client.finalized_epoch) >>= schedule_epoch) s

  -- BlockIndexer.Run
  unfoldable pub block_indexer_run : Exec State Bool
  block_indexer_run s = (ok (not (s.env.head_slot == s.last_processed_slot)), s)

  -- RecordLastProcessedSlot.Run
  unfoldable pub record_last_processed_slot_run : Exec State Bool
  record_last_processed_slot_run s =
      if s.env.defer_last_processed_commit
      then (ok false, s)
      else (ok false, record s { last_processed_slot = s.env.head_slot })

  -- AttestationRewards.RunAsync; `none` where the epoch is a nil pointer, which Go panics on.
  unfoldable pub attestation_rewards_run_async : Env → Option (Exec World (Unit {0}))
  attestation_rewards_run_async e = elim e.rewards_epoch [
    | none ↦ none
    | some epoch ↦
        some (index_epoch_at_boundary (record { client = c.client; repo = c.repo }) epoch)
  ]

  -- BlockIndexer.RunAsync
  unfoldable pub block_indexer_run_async : Env → Exec World (Unit {0})
  block_indexer_run_async e =
      index_block_at_slot (record { client = c.client; execution = c.exec; repo = c.repo })
        e.head_slot
      >> mark_slot_indexed c.repo e.head_slot

  -- queue.stepJobRunner.Run, for the jobs of this runner.
  unfoldable pub run_job : Job → Option (Exec World (Unit {0}))
  run_job j = elim j.step [
    | attestation_rewards ↦ attestation_rewards_run_async j.env
    | block_indexer ↦ some (block_indexer_run_async j.env)
  ]

  -- Runner.Enqueue
  unfoldable pub enqueue : Job → Exec State (Unit {0})
  enqueue job s = elim (c.pool s.world.calls) [
    | ok u ↦ (ok tt, record s { jobs = job ∷ s.jobs; world = at (s.world.calls + 1) s.world.db })
    | err e ↦ (err e, record s { world = at (s.world.calls + 1) s.world.db })
  ]

  -- A step that is not asynchronous never becomes a job; its `job` is not used.
  abbrev job_of : AsyncStep → State → Job
  job_of step s = record { step = step; env = s.env }

  abbrev pub bootstrap_step : Step State Job
  bootstrap_step = record { async = false; run = bootstrap_run; job = job_of block_indexer }

  abbrev pub attestation_rewards_step : Step State Job
  attestation_rewards_step = record {
    async = true;
    run = attestation_rewards_run;
    job = job_of attestation_rewards;
  }

  abbrev pub block_indexer_step : Step State Job
  block_indexer_step = record { async = true; run = block_indexer_run; job = job_of block_indexer }

  abbrev pub record_step : Step State Job
  record_step = record {
    async = false;
    run = record_last_processed_slot_run;
    job = job_of block_indexer;
  }

  -- stepChain
  abbrev pub steps : List (Step State Job)
  steps = bootstrap_step ∷ attestation_rewards_step ∷ block_indexer_step ∷ record_step ∷ []

  -- The runner that the engine drives; `pace` is WaitPollInterval.
  unfoldable pub runner : Exec State (Unit {0}) → Runner State Job
  runner pace = record {
    before_step = pace;
    after_step = pure tt;
    step_chain = pure (steps, false);
    sleep_on_seed_error = pos 0;
    enqueue = enqueue;
    reset = λ s. record s { env = reset s.env };
  }

-- New: a slot that no head has, so the first head is taken.
unfoldable pub new_state : World → State
new_state w = record { env = new_env; last_processed_slot = 2 ^ 64 - 1; jobs = []; world = w }
