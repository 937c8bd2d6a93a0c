-- ===== src/Realtime/Heads.antt =====
-- The cursor of the realtime chain and the jobs that it queues.
use pauli.Common.{
  ℕ, ◌≡◌, refl, ◌∙◌, ◌⊎◌, inl, inr, Bool, true, false, not, ◌||◌, none, some, List, [], ◌∷◌, ◌==◌,
  ==_iff, if◌then◌else◌, Bool-cases, arith, ◌≢◌, All, ◌/◌,
}
use pauli.Common.Int.{pos}
use pauli.Exec.{Result, ok, err, Exec}
use pauli.Exec.Post.{Post, Post-bind, Post-weaken}
use pauli.Storage.{World}
use pauli.Storage.Progress.{is_epoch_indexed}
use pauli.Config.{slots_per_epoch}
use pauli.Indexing.{fetch}
use pauli.Engine.{Step, Context, run_step_chain}
use pauli.Engine.Chain.{Calm, Queues, run_step_chain-cons}
use pauli.Realtime.{
  Settings, State, Job, attestation_rewards, block_indexer, on_world, no_epoch, bootstrap_run,
  attestation_rewards_run, schedule_epoch, block_indexer_run, record_last_processed_slot_run,
  enqueue, steps, runner, bootstrap_step, attestation_rewards_step, block_indexer_step, record_step,
  is_consensus_epoch_boundary_slot,
}

-- A job to index the block at the slot has been accepted.
abbrev pub Queued : ℕ → List Job → Type 0
Queued n [] = ⊥
Queued n (job ∷ jobs) = ((job.step ≡ block_indexer) × (job.env.head_slot ≡ n)) ⊎ Queued n jobs

-- An attestation job knows its epoch.
abbrev pub HasEpoch : Job → Type 0
HasEpoch job = job.step ≡ attestation_rewards → job.env.rewards_epoch ≢ none

module _ (c : Settings) (s : State) where
  -- Nothing is queued that cannot run, and the cursor stands where it stood or at a queued head.
  abbrev pub Cursor : State → Type 0
  Cursor s' =
      All HasEpoch s'.jobs
      × ((s'.last_processed_slot ≡ s.last_processed_slot) ⊎ Queued s'.last_processed_slot s'.jobs)

  -- Before the last step; and where the head has been seen to be old, or has been queued.
  abbrev Waiting : State → Type 0
  Waiting s' = All HasEpoch s'.jobs × (s'.last_processed_slot ≡ s.last_processed_slot)

  abbrev Taken : State → Type 0
  Taken s' =
      Waiting s' × ((s'.env.head_slot ≡ s.last_processed_slot) ⊎ Queued s'.env.head_slot s'.jobs)

  on_world-Waiting :
      {A : Type 0} (m : Exec World A) (s' : State)
      → Waiting s'
      → Post (λ _ t. Waiting t) Cursor (on_world m s')
  on_world-Waiting {A} m s' h = go (m s'.world)
    where
      go : (x : Result A × World) → Post (λ _ t. Waiting t) Cursor (on_world (λ _. x) s')
      go (ok a, w) = h
      go (err e, w) = (h.0, inl h.1)

  bootstrap-Waiting :
      (s' : State) → Waiting s' → Post (λ _ t. Waiting t) Cursor (bootstrap_run c s')
  unfolding bootstrap_run
  bootstrap-Waiting s' h =
      Post-bind (λ _ t. Waiting t) (λ _ t. Waiting t) Cursor (on_world (fetch c.get_head)) _ s'
        (on_world-Waiting (fetch c.get_head) s' h) (λ head t k. k)

  -- Enqueue, accepted or not.
  enqueue-Post :
      (Q : State → Type 0) (job : Job) (t : State)
      → Waiting t
      → ((w : World) → Q (record t { jobs = job ∷ t.jobs; world = w }))
      → Post (λ _ u. Q u) Cursor (enqueue c job t)
  unfolding enqueue
  enqueue-Post Q job t h k = go (c.pool t.world.calls)
    where
      go :
          (x : Result (Unit {0}))
          → Post (λ _ u. Q u) Cursor (enqueue (record c { pool = λ _. x }) job t)
      go (ok u) = k _
      go (err e) = (h.0, inl h.1)

  abbrev boundary : State → Bool
  boundary t =
      t.env.head_slot == t.last_processed_slot
      || (not (is_consensus_epoch_boundary_slot t.env.head_slot)
          || t.env.head_slot / slots_per_epoch == 0)

  -- A step that asks to be queued knows its epoch.
  abbrev Scheduled : Bool → State → Type 0
  Scheduled b t = Waiting t × (b ≡ true → t.env.rewards_epoch ≢ none)

  decide_epoch :
      (finalized : ℕ) (b : Bool) (t : State)
      → Waiting t
      → Post Scheduled Cursor (
          (if b
            then (ok false, record t { env = no_epoch t.env })
            else (ok true, record t { env = record t.env { rewards_epoch = some finalized } })))
  decide_epoch finalized true t h = (h, λ e. cc)
  decide_epoch finalized false t h = (h, λ e n. cc)

  attestation-Scheduled :
      (t : State) → Waiting t → Post Scheduled Cursor (attestation_rewards_run c t)
  unfolding attestation_rewards_run
  attestation-Scheduled t h = elim (Bool-cases (boundary t)) [
    | inl skip ↦ rw skip (h, λ e. cc)
    | inr due ↦ rw due (
        Post-bind (λ _ u. Waiting u) Scheduled Cursor (on_world (fetch c.client.finalized_epoch))
          (schedule_epoch c) t (on_world-Waiting (fetch c.client.finalized_epoch) t h)
          (λ finalized u k.
            Post-bind (λ _ v. Waiting v) Scheduled Cursor
              (on_world (is_epoch_indexed c.repo finalized)) _ u
              (on_world-Waiting (is_epoch_indexed c.repo finalized) u k)
              (λ indexed v q. decide_epoch finalized indexed v q)))
  ]

  module _ (ctx : Context State) (pace : Exec State (Unit {0})) (calm : Calm ctx Cursor) where
    abbrev Leaves : (State → Type 0) → Step State Job → Bool → State → Type 0
    Leaves Q step b t = Queues ctx (runner c pace) Q Cursor step b t

    abbrev EndsWell : List (Step State Job) → State → Type 0
    EndsWell chain t = Cursor (run_step_chain ctx (runner c pace) chain (pos 0) t).1

    attestation-Leaves :
        (b : Bool) (t : State) → Scheduled b t → Leaves Waiting (attestation_rewards_step c) b t
    unfolding runner
    attestation-Leaves false t h = h.0
    attestation-Leaves true t h =
        enqueue-Post Waiting (record { step = attestation_rewards; env = t.env }) t h.0
          (λ w. (((λ q. h.1 refl), h.0.0), h.0.1))

    block-Leaves :
        (b : Bool) (t : State)
        → not (t.env.head_slot == t.last_processed_slot) ≡ b
        → Waiting t
        → Leaves Taken (block_indexer_step c) b t
    unfolding runner
    block-Leaves false t q h =
        (h, inl ((==_iff t.env.head_slot t.last_processed_slot).0 (ground (arith, q)) ∙ h.1))
    block-Leaves true t q h =
        enqueue-Post Taken (record { step = block_indexer; env = t.env }) t h
          (λ w. ((((λ n. cc), h.0), h.1), inr (inl (refl, refl))))

    record-Cursor :
        (b : Bool) (t : State)
        → Taken t
        → Post
            (λ _ u. Cursor u)
            Cursor
            ((if b
              then (ok false, t)
              else (ok false, record t { last_processed_slot = t.env.head_slot })))
    record-Cursor true t h = (h.0.0, inl h.0.1)
    record-Cursor false t h = (h.0.0, h.1)

    last_step : (t : State) → Taken t → EndsWell (record_step c ∷ []) t
    unfolding run_step_chain record_last_processed_slot_run
    last_step t h =
        run_step_chain-cons ctx (runner c pace) Cursor calm Cursor (record_step c) [] (pos 0) t
          (record-Cursor t.env.defer_last_processed_commit t h) (λ u k. k)

    from_block : (t : State) → Waiting t → EndsWell (block_indexer_step c ∷ record_step c ∷ []) t
    unfolding block_indexer_run
    from_block t h =
        run_step_chain-cons ctx (runner c pace) Cursor calm Taken (block_indexer_step c)
          (record_step c ∷ []) (pos 0) t (block-Leaves _ t refl h) last_step

    from_attestation :
        (t : State)
        → Waiting t
        → EndsWell (attestation_rewards_step c ∷ block_indexer_step c ∷ record_step c ∷ []) t
    from_attestation t h =
        run_step_chain-cons ctx (runner c pace) Cursor calm Waiting (attestation_rewards_step c)
          (block_indexer_step c ∷ record_step c ∷ []) (pos 0) t
          (Post-weaken {Q = Scheduled} {R = Leaves Waiting (attestation_rewards_step c)}
            {F = Cursor} (attestation_rewards_run c t) (λ b u k. attestation-Leaves b u k)
            (λ u k. k) (attestation-Scheduled t h))
          from_block

    -- Let every queued attestation job know its epoch, and let tests of the context and waits keep
    -- what follows. Then, whatever the node, the database and the pool answer, one pass over the
    -- chain leaves the cursor where it stood or at a head whose block is queued, and every queued
    -- attestation job knows its epoch.
    pub run_step_chain-Cursor :
        All HasEpoch s.jobs → Cursor (run_step_chain ctx (runner c pace) (steps c) (pos 0) s).1
    run_step_chain-Cursor jobs =
        run_step_chain-cons ctx (runner c pace) Cursor calm Waiting (bootstrap_step c)
          (attestation_rewards_step c ∷ block_indexer_step c ∷ record_step c ∷ []) (pos 0) s
          (bootstrap-Waiting s (jobs, refl)) from_attestation
