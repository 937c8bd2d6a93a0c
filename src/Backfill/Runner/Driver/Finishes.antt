-- ===== src/Backfill/Runner/Driver/Finishes.antt =====
-- The engine over a one-shot backfill runner whose server answers and whose slots and epochs can be
-- indexed: the run ends.
use pauli.Common.{
  some, ℕ, zero, suc, ◌+◌, ◌*◌, ◌^◌, ◌≤◌, ◌<◌, ◌≡◌, refl, sym, Bool, true, List, [], subst, arith,
}
use pauli.Exec.{Result, ok, err}
use pauli.Exec.Post.{Post, Post-weaken}
use pauli.Exec.Returns.{IsOk, IsOk-Post}
use pauli.Storage.{epoch, answered, Db, World}
use pauli.Storage.Progress.Marks.{IsMarked}
use pauli.Engine.{
  Verdict, again, exit, iteration, run, run_step_chain, after_step_chain, proceed, pause_or_exit,
}
use pauli.Indexing.Blocks.{index_block_at_slot}
use pauli.Indexing.Epochs.{index_epoch_at_boundary}
use pauli.Backfill.{run_slot_pass, run_epoch_pass, slot_floor, epoch_floor, block_indexer}
use pauli.Backfill.EpochMarks.{epoch_indexer}
use pauli.Backfill.Runner.{
  Runner, OneShotBounds, Step, floor_slot, floor_epoch, one_shot_complete, step_chain, slot_step,
  epoch_step,
}
use pauli.Backfill.Runner.Complete.{Decides, Unchanged, one_shot_complete-Post, step_chain-Post}
use pauli.Backfill.Runner.Driver.{State, driver, background, before_step, chain_of}
use pauli.Backfill.Runner.Driver.OneShot.{Finished}
use pauli.Backfill.Runner.Driver.Answers.{one_shot_complete-IsOk}
use pauli.Backfill.Runner.Driver.Carries.{
  idling, AtStart, Carried, after_iteration, iteration-Carried,
}
use pauli.Backfill.Runner.Driver.Advances.{
  Reports, EpochReports, SlotStretch, EpochStretch, pass_size, epoch_pass_size, one_more,
  run_slot_pass-Stretch, run_epoch_pass-Stretch,
}

-- The run has ended, and every slot and epoch of the bounds is marked.
abbrev pub Ended : Runner → OneShotBounds → Verdict × State → Type 0
Ended r b x = (x.0 ≡ exit) × Finished r b x.1.1

-- With everything marked, StepChain asks to stop.
module _ (r : Runner) (b : OneShotBounds) (live : (n : ℕ) → r.repo.fate n ≡ answered)
    (one : r.opts.one_shot ≡ true) (frozen : r.one_shot_bounds ≡ some b)
    (small_slot : b.end_slot < 2 ^ 63) (small_epoch : b.end_epoch < 2 ^ 63)
    (low_slot : floor_slot r < 2 ^ 63) (low_epoch : floor_epoch r < 2 ^ 63) where
  abbrev Asks : List Step × Bool → World → Type 0
  Asks (chain, stop) w' = (chain ≡ []) × (stop ≡ true)

  step_chain-Asks : (w : World) → Finished r b w → Post Asks (λ _. ⊥) (step_chain r w)
  step_chain-Asks w done =
      step_chain-Post r (Decides (Finished r b w) w) Asks (λ _. ⊥) w one
        (IsOk-Post (Decides (Finished r b w) w) (Unchanged w) (one_shot_complete r w)
          (one_shot_complete-IsOk r b live w frozen small_slot small_epoch)
          (one_shot_complete-Post r b w frozen low_slot low_epoch))
        (λ w' h. (refl, refl)) (λ w' h. absurd (cc (h.1.1 done)))

  ends :
      (x : Result (List Step × Bool) × World)
      → Post Asks (λ _. ⊥) x
      → (after_step_chain background (driver background) (chain_of x r)).0 ≡ exit
  unfolding driver pause_or_exit run_step_chain
  ends (ok (chain, stop), w') h = rw (h.0, h.1) refl
  ends (err e, w') h = absurd h

  pub iteration-exit :
      (w : World) → Finished r b w → (iteration background (driver background) (r, w)).0 ≡ exit
  unfolding iteration driver before_step
  iteration-exit w done = ends (step_chain r w) (step_chain-Asks w done)

module _ (r : Runner) (b : OneShotBounds) (live : (n : ℕ) → r.repo.fate n ≡ answered)
    (indexes : (p : ℕ) (w : World) → IsOk (index_block_at_slot (block_indexer (slot_step r)) p w))
    (heads : (n : ℕ) → Reports (slot_step r) b.end_slot n)
    (index_epochs : (e : ℕ) (w : World)
      → e < 2 ^ 63
      → Post
          (λ _ w'. IsMarked w' epoch e)
          (λ _. ⊥)
          (index_epoch_at_boundary (epoch_indexer (epoch_step r)) e w))
    (reports : (n : ℕ) → EpochReports (epoch_step r) b.end_epoch n)
    (same_slot : slot_floor (slot_step r) ≡ floor_slot r)
    (same_epoch : epoch_floor (epoch_step r) ≡ floor_epoch r) (low_slot : floor_slot r < 2 ^ 63)
    (low_epoch : floor_epoch r < 2 ^ 63) where
  abbrev Before : ℕ → Db → Type 0
  Before j db =
      SlotStretch r b.end_slot (j * pass_size r) db
      × EpochStretch r b.end_epoch (j * epoch_pass_size r) db

  abbrev Between : ℕ → Db → Type 0
  Between j db =
      SlotStretch r b.end_slot (suc j * pass_size r) db
      × EpochStretch r b.end_epoch (j * epoch_pass_size r) db

  slots :
      (j : ℕ) (w : World)
      → Before j w.db
      → Post (λ _ w'. Between j w'.db) (λ w'. Before (suc j) w'.db) (run_slot_pass (slot_step r) w)
  slots j w k =
      Post-weaken {R = λ _ w'. Between j w'.db} {F = λ w'. Before (suc j) w'.db}
        (run_slot_pass (slot_step r) w)
        (λ _ w' h. (
          subst (λ m. SlotStretch r b.end_slot m w'.db) (one_more j (pass_size r)) h.0,
          λ p above below le. h.1 p (k.1 p above below le),
        ))
        (λ w' h. absurd h)
        (run_slot_pass-Stretch r b.end_slot live indexes heads (omega (arith, same_slot, low_slot))
          (j * pass_size r) w k.0)

  epochs :
      (j : ℕ) (w : World)
      → Between j w.db
      → Post
          (λ _ w'. Before (suc j) w'.db)
          (λ w'. Before (suc j) w'.db)
          (run_epoch_pass (epoch_step r) w)
  epochs j w k =
      Post-weaken {R = λ _ w'. Before (suc j) w'.db} {F = λ w'. Before (suc j) w'.db}
        (run_epoch_pass (epoch_step r) w)
        (λ _ w' h. (
          λ p above below le. h.1 p (k.0 p above below le),
          subst (λ m. EpochStretch r b.end_epoch m w'.db) (one_more j (epoch_pass_size r)) h.0,
        ))
        (λ w' h. absurd h)
        (run_epoch_pass-Stretch r b.end_epoch live index_epochs reports
          (omega (arith, same_epoch, low_epoch)) (j * epoch_pass_size r) w k.1)

  -- After `j` passes of each track.
  abbrev Covers : ℕ → Type 0
  Covers j =
      (b.end_slot + 1 ≤ floor_slot r + j * pass_size r)
      × (b.end_epoch + 1 ≤ floor_epoch r + j * epoch_pass_size r)

  whole_bounds : (j : ℕ) (w : World) → Covers j → Before j w.db → Finished r b w
  whole_bounds j w c k = (
    λ p above below. k.0 p (omega (arith, same_slot)) (omega (arith, same_slot, c.0)) (omega arith),
    λ p above below.
        k.1 p (omega (arith, same_epoch)) (omega (arith, same_epoch, c.1)) (omega arith),
  )

  module _ (one : r.opts.one_shot ≡ true) (frozen : r.one_shot_bounds ≡ some b)
      (small_slot : b.end_slot < 2 ^ 63) (small_epoch : b.end_epoch < 2 ^ 63) where
    exits :
        (j : ℕ) (s : State)
        → Covers j
        → AtStart r b Before Between j s
        → (iteration background (driver background) s).0 ≡ exit
    exits j (r', w) c k =
        subst (λ x. (iteration background (driver background) (x, w)).0 ≡ exit) (sym k.0.1)
          (iteration-exit (idling r k.0.0) b live one frozen small_slot small_epoch low_slot
            low_epoch w (whole_bounds j w c k.1))

    leaves :
        (j : ℕ) (x : Verdict × State) (rest : State → Verdict × State)
        → x.0 ≡ exit
        → Carried r b Before Between j x
        → Ended r b (proceed background (driver background) rest x)
    leaves j (again, s) rest e k = absurd cc
    leaves j (exit, s) rest e k = (refl, k)

    goes_round :
        (j : ℕ) (s : State)
        → AtStart r b Before Between j s
        → Carried r b Before Between (suc j) (iteration background (driver background) s)
    goes_round =
        iteration-Carried r b Before Between slots epochs live one frozen small_slot small_epoch
          low_slot low_epoch

    run-Ended :
        (n j : ℕ) (s : State)
        → Covers (j + n)
        → AtStart r b Before Between j s
        → Ended r b (run background (driver background) (suc n) s)
    unfolding run
    run-Ended zero j s c k =
        leaves (suc j) (iteration background (driver background) s)
          (λ s'. run background (driver background) 0 s')
          (exits j s (subst Covers (let e : j + 0 ≡ j = omega arith in e) c) k) (goes_round j s k)
    run-Ended (suc n) j s c k =
        after_iteration r b Before Between slots epochs live one frozen small_slot small_epoch
          low_slot low_epoch (Ended r b) (suc j) (iteration background (driver background) s)
          (λ s'. run background (driver background) (suc n) s') (goes_round j s k)
          (λ s' h. (refl, h))
          (λ s' k'.
            run-Ended n (suc j) s'
              (subst Covers (let e : j + suc n ≡ suc j + n = omega arith in e) c) k')

    -- For a one-shot runner with frozen bounds and uncancelled: if the repository answers every
    -- statement, indexing a slot returns no error, indexing an epoch returns no error and marks it,
    -- each head and finalized epoch put the targets of the passes at the frozen ends or later, no
    -- configured start lies above the run's, and the heads, ends and floors lie below 2^63, then
    -- the run ends within `n + 1` iterations, where n passes reach from the floors over the ends;
    -- and then every slot and every epoch of the bounds is marked.
    pub run-Finished :
        (n : ℕ) (w : World)
        → b.end_slot + 1 ≤ floor_slot r + n * pass_size r
        → b.end_epoch + 1 ≤ floor_epoch r + n * epoch_pass_size r
        → Ended r b (run background (driver background) (suc n) (r, w))
    run-Finished n w slots_covered epochs_covered =
        run-Ended n 0 (r, w)
          (subst Covers (let e : n ≡ 0 + n = omega arith in e) (slots_covered, epochs_covered))
          (
            (r.idle, refl),
            ((λ p above below le. absurd (omega arith)), λ p above below le. absurd (omega arith)),
          )
