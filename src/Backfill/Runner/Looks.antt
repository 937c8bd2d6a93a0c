-- ===== src/Backfill/Runner/Looks.antt =====
-- runner/backfill: looking whether the runner has caught up changes no table.
use pauli.Common.{ℕ, false, true, Option, none, some, ltb}
use pauli.Storage.{Kind, slot, epoch, Db}
use pauli.Storage.Keeps.{Keeps, Keeps-bind, Keeps-if, Keeps-pure, keeps_rules}
use pauli.Storage.Progress.{first_unindexed}
use pauli.Indexing.Calls.{Keeps-fetch}
use pauli.Backfill.EpochReads.{scan-Keeps}
use pauli.Backfill.Runner.{
  Runner, floor_slot, slot_target, slot_target_or, epoch_target, epoch_target_or, caught_up,
  freeze_one_shot_bounds, track_complete, answer,
}

module _ (P : Db → Type 0) (r : Runner) where
  track-Keeps : (k : Kind) (floor end : ℕ) → Keeps P (track_complete r k floor end)
  track-Keeps k floor end =
      Keeps-if (ltb end floor) _ _ (Keeps-pure true) (
        Keeps-bind (first_unindexed r.repo k floor end) _ (scan-Keeps r.repo k P floor end)
          answered)
    where
      answered : (o : Option ℕ) → Keeps P (answer r o)
      answered none = Keeps-pure true
      answered (some q) = Keeps-pure false

  slot_target-Keeps : (o : Option ℕ) → Keeps P (slot_target_or r o)
  slot_target-Keeps none = search (keeps_rules, Keeps-fetch)
  slot_target-Keeps (some e) = Keeps-pure e

  epoch_target-Keeps : (o : Option ℕ) → Keeps P (epoch_target_or r o)
  epoch_target-Keeps none = search (keeps_rules, Keeps-fetch)
  epoch_target-Keeps (some e) = Keeps-pure e

  pub freeze_one_shot_bounds-Keeps : Keeps P (freeze_one_shot_bounds r)
  unfolding freeze_one_shot_bounds slot_target epoch_target
  freeze_one_shot_bounds-Keeps =
      Keeps-bind (slot_target r) _ (slot_target-Keeps r.opts.end_slot) (λ end.
        Keeps-bind (epoch_target r) _ (epoch_target-Keeps r.opts.end_epoch)
          (λ end_epoch. Keeps-pure _))

  pub caught_up-Keeps : Keeps P (caught_up r)
  unfolding caught_up slot_target epoch_target
  caught_up-Keeps = Keeps-bind (slot_target r) _ (slot_target-Keeps r.opts.end_slot) (λ end.
      Keeps-bind (track_complete r slot (floor_slot r) end) _ (track-Keeps slot _ end) (λ slots.
        Keeps-if slots _ _
          (Keeps-bind (epoch_target r) _ (epoch_target-Keeps r.opts.end_epoch)
            (λ end_epoch. track-Keeps epoch _ end_epoch))
          (Keeps-pure false)))
