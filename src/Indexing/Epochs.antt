-- ===== src/Indexing/Epochs.antt =====
-- epoch.go: the indexing of one epoch.
pub mod Batches
pub mod Rows
pub mod Outcome
pub mod Whole
use pauli.Common.{
  ℕ, zero, suc, ◌*◌, ◌%◌, ◌^◌, Bool, true, false, Option, none, some, List, [], ◌∷◌, ◌++◌, ◌==◌,
  if◌then◌else◌, take, drop, length,
}
use pauli.Common.Int.{ℤ, ◌+ℤ◌, i64}
use pauli.Text.{text, format_uint}
use pauli.Exec.{wrap, ok, err, Exec, pure, raise, annotate, recover, ◌>>=◌, ◌>>◌}
use pauli.Storage.{ValidatorEpochRecord, World, Repository}
use pauli.Storage.Progress.{is_epoch_indexed, mark_epoch_indexed}
use pauli.Storage.Records.{save_validator_epoch_records}
use pauli.Beacon.{BeaconApi, Validator, AttestationReward}
use pauli.Config.{slots_per_epoch}
use pauli.Indexing.{rewards_state_not_yet_available, fetch, time_now}

abbrev pub validator_epoch_record_batch_size : ℕ
validator_epoch_record_batch_size = 500

-- map[uint64]beacon.AttestationReward
abbrev pub RewardMap : Type 0
RewardMap = List (ℕ × AttestationReward)

unfoldable pub reward_at : ℕ → RewardMap → Option AttestationReward
reward_at k [] = none
reward_at k ((j, r) ∷ m) = if k == j then some r else reward_at k m

unfoldable pub put_reward : ℕ → AttestationReward → RewardMap → RewardMap
put_reward k r [] = (k, r) ∷ []
put_reward k r ((j, q) ∷ m) = if k == j then (k, r) ∷ m else (j, q) ∷ put_reward k r m

unfoldable pub rewards_by_index : List AttestationReward → RewardMap → RewardMap
rewards_by_index [] m = m
rewards_by_index (r ∷ rs) m = rewards_by_index rs (put_reward r.validator_index r m)

-- head + source + target, as Go adds int64s.
abbrev pub total_reward : AttestationReward → ℤ
total_reward r = i64 (i64 (r.head +ℤ r.source) +ℤ r.target)

unfoldable pub with_rewards : Option AttestationReward → ValidatorEpochRecord → ValidatorEpochRecord
with_rewards none rec = rec
with_rewards (some r) rec = record rec {
  head_reward = some r.head;
  source_reward = some r.source;
  target_reward = some r.target;
  total_reward = some (total_reward r);
}

unfoldable pub merge_validator_epoch_records :
    ℕ → List Validator → ℕ → ℕ → RewardMap → List ValidatorEpochRecord
merge_validator_epoch_records now [] epoch slot rewards = []
merge_validator_epoch_records now (v ∷ vs) epoch slot rewards =
    with_rewards (reward_at v.index rewards) (record {
      validator_index = v.index;
      epoch = epoch;
      epoch_start_slot = slot;
      status = v.status;
      balance = v.balance;
      effective_balance = v.effective_balance;
      head_reward = none;
      source_reward = none;
      target_reward = none;
      total_reward = none;
      indexed_at = now;
    })
    ∷ merge_validator_epoch_records now vs epoch slot rewards

pub record EpochIndexer : Type 0 where
  pub client : BeaconApi
  pub repo : Repository

-- The loop over batches; `fuel` bounds their number.
unfoldable pub save_batches : Repository → ℕ → List ValidatorEpochRecord → Exec World (Unit {0})
save_batches r fuel [] = pure tt
save_batches r zero (rec ∷ recs) = pure tt
save_batches r (suc fuel) (rec ∷ recs) =
    save_validator_epoch_records r (take validator_epoch_record_batch_size (rec ∷ recs))
    >> save_batches r fuel (drop validator_epoch_record_batch_size (rec ∷ recs))

unfoldable pub save_validator_epoch_records_batched :
    Repository → List ValidatorEpochRecord → Exec World (Unit {0})
save_validator_epoch_records_batched r records = save_batches r (length records) records

module _ (idx : EpochIndexer) (epoch : ℕ) where
  -- `none` where the rewards are not available yet.
  unfoldable pub fetch_attestation_rewards_by_index : Exec World (Option RewardMap)
  fetch_attestation_rewards_by_index =
      recover (fetch (idx.client.get_attestation_rewards epoch []))
        (λ resp. pure (some (rewards_by_index resp.total_rewards [])))
        (λ e.
          if rewards_state_not_yet_available e
          then pure none
          else raise (wrap (text "fetch attestation rewards epoch " ++ format_uint epoch) e))

  -- A nil map has no entry.
  abbrev pub entries : Option RewardMap → RewardMap
  entries none = []
  entries (some m) = m

  abbrev pub finish_epoch : Option RewardMap → Exec World (Unit {0})
  finish_epoch none = pure tt
  finish_epoch (some m) =
      annotate (text "mark epoch " ++ (format_uint epoch ++ text " indexed"))
        (mark_epoch_indexed idx.repo epoch)

  -- From the epoch's start slot to the mark.
  unfoldable pub index_epoch : Exec World (Unit {0})
  index_epoch = do
    let slot = (epoch * slots_per_epoch) % 2 ^ 64
    validators ←
        annotate
          (text "get all validators at epoch "
            ++ (format_uint epoch ++ (text " slot " ++ format_uint slot)))
          (fetch (idx.client.get_validators_all_at_slot slot))
    rewards ← fetch_attestation_rewards_by_index
    now ← time_now idx.repo
    save_validator_epoch_records_batched idx.repo
        (merge_validator_epoch_records now validators epoch slot (entries rewards))
    finish_epoch rewards

  unfoldable pub index_epoch_at_boundary : Exec World (Unit {0})
  index_epoch_at_boundary = do
    indexed ← is_epoch_indexed idx.repo epoch
    if indexed then pure tt else (if epoch == 0 then mark_epoch_indexed idx.repo 0 else index_epoch)
