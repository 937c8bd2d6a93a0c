-- ===== src/Indexing/Epochs/Outcome.antt =====
-- What IndexEpochAtBoundary does to the tables on each of its ways out.
use pauli.Common.{
  ℕ, subst, ==_iff, ◌≡◌, refl, Bool, true, false, ◌==◌, Option, none, some, List, if◌then◌else◌,
}
use pauli.Storage.{ValidatorEpochRecord, epoch, Db, World, at}
use pauli.Storage.Keeps.{
  Keeps-bind, Keeps-if, Keeps-pure, Keeps, Keeps-execute, Keeps-annotate, keeps_rules,
}
use pauli.Storage.Progress.{is_epoch_indexed, is_progress, mark_epoch_indexed, mark_progress}
use pauli.Storage.Progress.Marks.{upsert-Marks, with_mark, Marks, Only, Marks-refl, Marks-trans}
use pauli.Indexing.Calls.{Keeps-fetch, Keeps-time_now}
use pauli.Indexing.Epochs.{
  EpochIndexer, RewardMap, finish_epoch, save_validator_epoch_records_batched,
  fetch_attestation_rewards_by_index, index_epoch, index_epoch_at_boundary,
}
use pauli.Indexing.Epochs.Batches.{batched-Keeps}

-- At most the epoch is marked, no mark is lost, and no block changes.
abbrev pub OnlyEpoch : ℕ → World → Db → Type 0
OnlyEpoch e w d = Marks (Only epoch e) w (at 0 d) × (d.blocks ≡ w.db.blocks)

module _ (idx : EpochIndexer) (e : ℕ) (w : World) where
  ruleset call_rules = (keeps_rules, Keeps-fetch, Keeps-time_now)

  saved-Keeps :
      (rows : List ValidatorEpochRecord)
      → Keeps (OnlyEpoch e w) (save_validator_epoch_records_batched idx.repo rows)
  saved-Keeps =
      batched-Keeps (OnlyEpoch e w)
        (λ d rows h. (record { keeps = h.0.keeps; adds = h.0.adds }, h.1)) idx.repo

  mark-Keeps : Keeps (OnlyEpoch e w) (mark_epoch_indexed idx.repo e)
  unfolding mark_epoch_indexed mark_progress
  mark-Keeps = Keeps-annotate _ _ (
      Keeps-execute idx.repo _ (with_mark epoch e) (λ now d h. (
        Marks-trans w (at 0 d) (at 0 (with_mark epoch e now d)) h.0
            (upsert-Marks epoch e now 0 (at 0 d)),
        h.1,
      )))

  finish-Keeps : (m : Option RewardMap) → Keeps (OnlyEpoch e w) (finish_epoch idx e m)
  finish-Keeps none = search keeps_rules
  finish-Keeps (some m) = search (keeps_rules, mark-Keeps)

  fetch_rewards-Keeps : Keeps (OnlyEpoch e w) (fetch_attestation_rewards_by_index idx e)
  unfolding fetch_attestation_rewards_by_index
  fetch_rewards-Keeps = search call_rules

  index_epoch-Keeps : Keeps (OnlyEpoch e w) (index_epoch idx e)
  unfolding index_epoch
  index_epoch-Keeps = search (call_rules, saved-Keeps, finish-Keeps, fetch_rewards-Keeps) depth 12

  mark_genesis-Keeps :
      (b : Bool)
      → (e == 0) ≡ b
      → Keeps (OnlyEpoch e w) (if b then mark_epoch_indexed idx.repo 0 else index_epoch idx e)
  mark_genesis-Keeps true q =
      subst (λ n. Keeps (OnlyEpoch e w) (mark_epoch_indexed idx.repo n)) ((==_iff e 0).0 q)
        mark-Keeps
  mark_genesis-Keeps false q = index_epoch-Keeps

  test-Keeps : Keeps (OnlyEpoch e w) (is_epoch_indexed idx.repo e)
  unfolding is_epoch_indexed is_progress
  test-Keeps = search keeps_rules

  boundary-Keeps : Keeps (OnlyEpoch e w) (index_epoch_at_boundary idx e)
  unfolding index_epoch_at_boundary
  boundary-Keeps =
      Keeps-bind (is_epoch_indexed idx.repo e) _ test-Keeps
        (λ b. Keeps-if b _ _ (Keeps-pure tt) (mark_genesis-Keeps (e == 0) refl))

-- Indexing an epoch marks at most that epoch, loses no mark and changes no block, whether it
-- returns or fails.
pub index_epoch_at_boundary-OnlyEpoch :
    (idx : EpochIndexer) (e : ℕ) (w : World) → OnlyEpoch e w (index_epoch_at_boundary idx e w).1.db
index_epoch_at_boundary-OnlyEpoch idx e w = (boundary-Keeps idx e w).stays w (Marks-refl 0 w, refl)
