-- ===== src/Backfill/Runner/Driver/Reaches.antt =====
-- The engine over a backfill runner whose server answers and whose slots can be indexed: the run
-- gets to every slot behind the head.
use pauli.Common.{some, ℕ, suc, ◌+◌, ◌*◌, ◌^◌, ◌≤◌, ◌<◌, ◌≡◌, refl, true, subst, arith}
use pauli.Exec.Post.{Post, Post-weaken, Post-state}
use pauli.Exec.Returns.{IsOk}
use pauli.Storage.{slot, answered, Db, World}
use pauli.Storage.Progress.{marked}
use pauli.Engine.{Verdict, again, exit, run}
use pauli.Indexing.Blocks.{index_block_at_slot}
use pauli.Backfill.{run_slot_pass, run_epoch_pass, slot_floor, block_indexer}
use pauli.Backfill.EpochReads.{run_epoch_pass-Marked}
use pauli.Backfill.Runner.{Runner, OneShotBounds, floor_epoch, slot_step, epoch_step}
use pauli.Backfill.Runner.Driver.{State, driver, background}
use pauli.Backfill.Runner.Driver.Carries.{Carried, run-Carried}
use pauli.Backfill.Runner.Driver.Advances.{
  Reports, SlotStretch, pass_size, floor_le, one_more, run_slot_pass-Stretch,
}

module _ (r : Runner) (b : OneShotBounds) (last : ℕ) (live : (n : ℕ) → r.repo.fate n ≡ answered)
    (indexes : (p : ℕ) (w : World) → IsOk (index_block_at_slot (block_indexer (slot_step r)) p w))
    (heads : (n : ℕ) → Reports (slot_step r) last n) (low : slot_floor (slot_step r) < 2 ^ 63) where
  abbrev Before : ℕ → Db → Type 0
  Before j = SlotStretch r last (j * pass_size r)

  abbrev Between : ℕ → Db → Type 0
  Between j = Before (suc j)

  slots :
      (j : ℕ) (w : World)
      → Before j w.db
      → Post (λ _ w'. Between j w'.db) (λ w'. Before (suc j) w'.db) (run_slot_pass (slot_step r) w)
  slots j w k =
      Post-weaken {R = λ _ w'. Between j w'.db} {F = λ w'. Before (suc j) w'.db}
        (run_slot_pass (slot_step r) w)
        (λ _ w' h. subst (λ m. SlotStretch r last m w'.db) (one_more j (pass_size r)) h.0)
        (λ w' h. absurd h)
        (run_slot_pass-Stretch r last live indexes heads low (j * pass_size r) w k)

  epochs :
      (j : ℕ) (w : World)
      → Between j w.db
      → Post
          (λ _ w'. Before (suc j) w'.db)
          (λ w'. Before (suc j) w'.db)
          (run_epoch_pass (epoch_step r) w)
  epochs j w k =
      Post-state (λ w'. Before (suc j) w'.db) (run_epoch_pass (epoch_step r) w)
        (λ p above below le. (run_epoch_pass-Marked (epoch_step r) p).stays w (k p above below le))

  module _ (one : r.opts.one_shot ≡ true) (frozen : r.one_shot_bounds ≡ some b)
      (small_slot : b.end_slot < 2 ^ 63) (small_epoch : b.end_epoch < 2 ^ 63)
      (low_epoch : floor_epoch r < 2 ^ 63) where
    marks :
        (m : ℕ) (x : Verdict × State)
        → Carried r b Before Between m x
        → last + 1 ≤ slot_floor (slot_step r) + m * pass_size r
        → last ≤ b.end_slot
        → (p : ℕ) → slot_floor (slot_step r) ≤ p
        → p ≤ last
        → marked slot p x.1.1.db.progress ≡ true
    marks m (again, s) k enough within p above le = k.1 p above (omega arith) le
    marks m (exit, s) k enough within p above le = k.0 p (omega (arith, floor_le r)) (omega arith)

    -- For a one-shot runner with frozen bounds and uncancelled: if the repository answers every
    -- statement, indexing a slot returns no error, each head puts the target of the slot pass at
    -- `last` or later, and the heads, ends and floors lie below 2^63, then after `n` iterations,
    -- with `last` at most n times `slots_per_pass` behind the floor and within the frozen bounds,
    -- every slot from the floor of the slot pass to `last` is marked, whether or not the run has
    -- ended before.
    pub run-Marked :
        (n : ℕ) (w : World)
        → last + 1 ≤ slot_floor (slot_step r) + n * pass_size r
        → last ≤ b.end_slot
        → (p : ℕ) → slot_floor (slot_step r) ≤ p
        → p ≤ last
        → marked slot p (run background (driver background) n (r, w)).1.1.db.progress ≡ true
    run-Marked n w = marks n (run background (driver background) n (r, w)) (
        subst (λ x. Carried r b Before Between x (run background (driver background) n (r, w)))
          (let e : 0 + n ≡ n = omega arith in e)
          (run-Carried r b Before Between slots epochs live one frozen small_slot small_epoch
            (omega (arith, floor_le r)) low_epoch n 0 (r, w)
            ((r.idle, refl), λ p above below le. absurd (omega arith))))
