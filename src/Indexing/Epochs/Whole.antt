-- ===== src/Indexing/Epochs/Whole.antt =====
-- Which of their four rewards the records have that the indexing of an epoch writes.
use pauli.Common.{ℕ, zero, suc, refl, inl, inr, Option, none, some, List, [], ◌∷◌, All, take}
use pauli.Common.Orders.{All-take, All-drop}
use pauli.Storage.{ValidatorEpochRecord, World, Repository}
use pauli.Storage.Keeps.{Keeps, Keeps-execute, Keeps-annotate, Keeps-bind, keeps_rules}
use pauli.Storage.Records.{save_validator_epoch_records}
use pauli.Storage.Records.Whole.{Whole, HasNone, AllWhole, save-Whole}
use pauli.Storage.Progress.{is_epoch_indexed, is_progress, mark_epoch_indexed, mark_progress}
use pauli.Beacon.{Validator, AttestationReward}
use pauli.Indexing.Calls.{Keeps-fetch, Keeps-time_now}
use pauli.Indexing.Epochs.{
  EpochIndexer, RewardMap, reward_at, with_rewards, merge_validator_epoch_records, save_batches,
  save_validator_epoch_records_batched, finish_epoch, fetch_attestation_rewards_by_index,
  index_epoch, index_epoch_at_boundary, validator_epoch_record_batch_size,
}

with_rewards-Whole :
    (o : Option AttestationReward) (rec : ValidatorEpochRecord)
    → HasNone rec
    → Whole (with_rewards o rec)
unfolding with_rewards
with_rewards-Whole none rec h = inr h
with_rewards-Whole (some r) rec h = inl (_, _, _, _, refl, refl, refl, refl)

merge_records-Whole :
    (now : ℕ) (vs : List Validator) (e slot : ℕ) (m : RewardMap)
    → All Whole (merge_validator_epoch_records now vs e slot m)
unfolding merge_validator_epoch_records
merge_records-Whole now [] e slot m = tt
merge_records-Whole now (v ∷ vs) e slot m = (
  with_rewards-Whole (reward_at v.index m) _ (refl, refl, refl, refl),
  merge_records-Whole now vs e slot m,
)

module _ (r : Repository) where
  save_batches-Whole :
      (fuel : ℕ) (rows : List ValidatorEpochRecord)
      → All Whole rows
      → Keeps AllWhole (save_batches r fuel rows)
  unfolding save_batches
  save_batches-Whole fuel [] h = search keeps_rules
  save_batches-Whole zero (row ∷ rows) h = search keeps_rules
  save_batches-Whole (suc fuel) (row ∷ rows) h =
      Keeps-bind
        (save_validator_epoch_records r (take validator_epoch_record_batch_size (row ∷ rows))) _
        (save-Whole r _ (All-take Whole validator_epoch_record_batch_size (row ∷ rows) h))
        (λ _.
          save_batches-Whole fuel _
            (All-drop Whole validator_epoch_record_batch_size (row ∷ rows) h))

module _ (idx : EpochIndexer) (e : ℕ) where
  saved-Whole :
      (now : ℕ) (vs : List Validator) (e slot : ℕ) (m : RewardMap)
      → Keeps AllWhole (
          save_validator_epoch_records_batched idx.repo
            (merge_validator_epoch_records now vs e slot m))
  unfolding save_validator_epoch_records_batched
  saved-Whole now vs e slot m =
      save_batches-Whole idx.repo _ _ (merge_records-Whole now vs e slot m)

  mark-Whole : (e : ℕ) → Keeps AllWhole (mark_epoch_indexed idx.repo e)
  unfolding mark_epoch_indexed mark_progress
  mark-Whole e = Keeps-annotate _ _ (Keeps-execute idx.repo _ _ (λ now d h. h))

  finish-Whole : (m : Option RewardMap) → Keeps AllWhole (finish_epoch idx e m)
  finish-Whole none = search keeps_rules
  finish-Whole (some m) = search (keeps_rules, mark-Whole)

  fetch_rewards-Whole : Keeps AllWhole (fetch_attestation_rewards_by_index idx e)
  unfolding fetch_attestation_rewards_by_index
  fetch_rewards-Whole = search (keeps_rules, Keeps-fetch)

  index_epoch-Whole : Keeps AllWhole (index_epoch idx e)
  unfolding index_epoch
  index_epoch-Whole =
      search
        (keeps_rules, Keeps-fetch, Keeps-time_now, saved-Whole, finish-Whole, fetch_rewards-Whole)
        depth 12

  test-Whole : Keeps AllWhole (is_epoch_indexed idx.repo e)
  unfolding is_epoch_indexed is_progress
  test-Whole = search keeps_rules

  boundary-Whole : Keeps AllWhole (index_epoch_at_boundary idx e)
  unfolding index_epoch_at_boundary
  boundary-Whole = search (keeps_rules, test-Whole, mark-Whole, index_epoch-Whole) depth 12

-- If every record of the table has all four rewards or none of them, then so it is after the
-- indexing of an epoch, whether that returns or fails.
pub index_epoch_at_boundary-Whole :
    (idx : EpochIndexer) (e : ℕ) (w : World)
    → AllWhole w.db
    → AllWhole (index_epoch_at_boundary idx e w).1.db
index_epoch_at_boundary-Whole idx e w h = (boundary-Whole idx e).stays w h
