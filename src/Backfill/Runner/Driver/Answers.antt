-- ===== src/Backfill/Runner/Driver/Answers.antt =====
-- StepChain of a one-shot runner whose server answers returns.
use pauli.Common.{
  ℕ, ◌^◌, ◌<◌, ◌≡◌, Bool, true, false, Option, none, some, inl, inr, if◌then◌else◌, ltb, Bool-cases,
}
use pauli.Exec.{pure}
use pauli.Exec.Returns.{IsOk, IsOk-bind}
use pauli.Storage.{Kind, slot, epoch, answered, World}
use pauli.Storage.Progress.{first_unindexed}
use pauli.Backfill.Returns.{first_unindexed-IsOk}
use pauli.Backfill.Runner.Complete.{step_chain-Post}
use pauli.Backfill.Runner.{
  Runner, OneShotBounds, floor_slot, floor_epoch, one_shot_complete, track_complete, answer,
  step_chain,
}

-- Whether the bounds are complete: the answer is returned.
module _ (r : Runner) (b : OneShotBounds) (live : (n : ℕ) → r.repo.fate n ≡ answered) where
  track_complete-IsOk :
      (k : Kind) (floor end : ℕ) (w : World) → end < 2 ^ 63 → IsOk (track_complete r k floor end w)
  track_complete-IsOk k floor end w small = elim (Bool-cases (ltb end floor)) [
    | inl over ↦ rw over tt
    | inr inside ↦ rw inside (
        IsOk-bind (first_unindexed r.repo k floor end) _ w
          (first_unindexed-IsOk r.repo live k floor end w small) answers)
  ]
    where
      answers : (found : Option ℕ) (w' : World) → IsOk (answer r found w')
      answers none w' = tt
      answers (some q) w' = tt

  pub one_shot_complete-IsOk :
      (w : World)
      → r.one_shot_bounds ≡ some b
      → b.end_slot < 2 ^ 63
      → b.end_epoch < 2 ^ 63
      → IsOk (one_shot_complete r w)
  unfolding one_shot_complete
  one_shot_complete-IsOk w frozen small_slot small_epoch = rw frozen (
      IsOk-bind (track_complete r slot (floor_slot r) b.end_slot) _ w
        (track_complete-IsOk slot (floor_slot r) b.end_slot w small_slot) after)
    where
      after :
          (slots : Bool) (w' : World)
          → IsOk (
              (if slots then track_complete r epoch (floor_epoch r) b.end_epoch else pure false) w')
      after true w' = track_complete-IsOk epoch (floor_epoch r) b.end_epoch w' small_epoch
      after false w' = tt

  pub step_chain-IsOk :
      (w : World)
      → r.opts.one_shot ≡ true
      → r.one_shot_bounds ≡ some b
      → b.end_slot < 2 ^ 63
      → b.end_epoch < 2 ^ 63
      → IsOk (step_chain r w)
  step_chain-IsOk w one frozen small_slot small_epoch =
      step_chain-Post r (λ _ _. Unit {0}) (λ _ _. Unit {0}) (λ _. ⊥) w one
        (one_shot_complete-IsOk w frozen small_slot small_epoch) (λ w' h. tt) (λ w' h. tt)
