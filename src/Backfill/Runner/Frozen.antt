-- ===== src/Backfill/Runner/Frozen.antt =====
-- runner/backfill: the bounds that freezeOneShotBounds leaves.
use pauli.Common.{ℕ, ◌≡◌, refl, Option, none, some}
use pauli.Exec.{Result, ok, err}
use pauli.Exec.Post.{Post, Post-bind}
use pauli.Storage.{World}
use pauli.Backfill.Runner.{
  Runner, OneShotBounds, given_or, slot_target, epoch_target, freeze_one_shot_bounds,
}

-- An end that the options give is the frozen one.
abbrev pub Respects : Option ℕ → ℕ → Type 0
Respects none end = Unit
Respects (some given) end = end ≡ given

Respects-given_or : (o : Option ℕ) (n : ℕ) → Respects o (given_or o n)
Respects-given_or none n = tt
Respects-given_or (some given) n = refl

module _ (r : Runner) where
  -- The runner has the same options and settings, and bounds that respect the options.
  abbrev pub Frozen : Runner → Type 0
  Frozen r' =
      (r'.opts ≡ r.opts)
      × (r'.cfg ≡ r.cfg)
      × ((b : OneShotBounds) × (r'.one_shot_bounds ≡ some b)
          × Respects r.opts.end_slot b.end_slot
          × Respects r.opts.end_epoch b.end_epoch)

  pub freeze_one_shot_bounds-Frozen :
      (w : World) → Post (λ r' _. Frozen r') (λ _. Unit) (freeze_one_shot_bounds r w)
  unfolding freeze_one_shot_bounds
  freeze_one_shot_bounds-Frozen w =
      Post-bind (λ _ _. Unit) (λ r' _. Frozen r') (λ _. Unit) (slot_target r) _ w
        (any (slot_target r w))
        (λ end_slot w1 _.
          Post-bind (λ _ _. Unit) (λ r' _. Frozen r') (λ _. Unit) (epoch_target r) _ w1
            (any (epoch_target r w1))
            (λ end_epoch w2 _. (
              refl,
              refl,
              (
                record {
                  end_slot = given_or r.opts.end_slot end_slot;
                  end_epoch = given_or r.opts.end_epoch end_epoch;
                },
                refl,
                Respects-given_or r.opts.end_slot end_slot,
                Respects-given_or r.opts.end_epoch end_epoch,
              ),
            )))
    where
      any : (x : Result ℕ × World) → Post (λ _ _. Unit {0}) (λ _. Unit {0}) x
      any (ok n, w') = tt
      any (err e, w') = tt
