-- ===== src/Backfill/Runner/Driver/OneShot.antt =====
-- When the engine ends a one-shot run.
use pauli.Common.{◌+◌, ◌^◌, ◌<◌, ◌≡◌, refl, Bool, true, some, List}
use pauli.Exec.{Result, ok, err}
use pauli.Exec.Post.{Post}
use pauli.Storage.{slot, epoch, World}
use pauli.Storage.Progress.Gaps.{AllMarked}
use pauli.Engine.{exit, iteration}
use pauli.Engine.Chain.{AsksToStop, after_step_chain-AsksToStop}
use pauli.Backfill.Runner.{Runner, OneShotBounds, Step, floor_slot, floor_epoch, step_chain}
use pauli.Backfill.Runner.Complete.{Decides, Unchanged, one_shot_complete-Post, step_chain-Post}
use pauli.Backfill.Runner.Driver.{driver, background, before_step, chain_of}

module _ (r : Runner) (b : OneShotBounds) where
  -- Every slot and epoch of the bounds is marked.
  abbrev pub Finished : World → Type 0
  Finished w =
      AllMarked slot w.db.progress (floor_slot r) (b.end_slot + 1)
      × AllMarked epoch w.db.progress (floor_epoch r) (b.end_epoch + 1)

  -- What ends a run.
  abbrev Stops : World → List Step × Bool → World → Type 0
  Stops w (chain, stop) w' = (w'.db ≡ w.db) × (stop ≡ true → Finished w)

  step_chain-Stops :
      (w : World)
      → r.opts.one_shot ≡ true
      → r.one_shot_bounds ≡ some b
      → floor_slot r < 2 ^ 63
      → floor_epoch r < 2 ^ 63
      → Post (Stops w) (Unchanged w) (step_chain r w)
  step_chain-Stops w one frozen low_slot low_epoch =
      step_chain-Post r (Decides (Finished w) w) (Stops w) (Unchanged w) w one
        (one_shot_complete-Post r b w frozen low_slot low_epoch) (λ w' h. (h.0, h.1.0))
        (λ w' h. (h.0, λ e. cc))

  chain_of-Finished :
      (w : World) (x : Result (List Step × Bool) × World)
      → Post (Stops w) (Unchanged w) x
      → AsksToStop background (driver background) (λ s. refl) (chain_of x r)
      → Finished w
  chain_of-Finished w (ok (chain, stop), w') h e = h.1 e
  chain_of-Finished w (err e', w') h e = absurd e

  -- For a one-shot runner with frozen bounds and floors below 2^63, while nobody cancels the run:
  -- if an iteration ends the run, then every slot and every epoch from the floors to the frozen
  -- ends is marked.
  pub iteration-Finished :
      (w : World)
      → r.opts.one_shot ≡ true
      → r.one_shot_bounds ≡ some b
      → floor_slot r < 2 ^ 63
      → floor_epoch r < 2 ^ 63
      → (iteration background (driver background) (r, w)).0 ≡ exit
      → Finished w
  unfolding iteration driver before_step
  iteration-Finished w one frozen low_slot low_epoch e =
      chain_of-Finished w (step_chain r w) (step_chain-Stops w one frozen low_slot low_epoch) (
        after_step_chain-AsksToStop background (driver background) (λ s. refl)
          (chain_of (step_chain r w) r) refl e)
