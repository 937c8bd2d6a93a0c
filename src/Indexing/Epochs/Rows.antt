-- ===== src/Indexing/Epochs/Rows.antt =====
-- Which rows of validator_epoch_records the indexing of an epoch leaves.
use pauli.Common.{
  ℕ, ◌*◌, ◌%◌, ◌^◌, ◌≡◌, refl, true, Option, none, some, List, [], ◌∷◌, All, subst, sym,
}
use pauli.Text.{Text}
use pauli.Exec.{Error, ok, err, annotate}
use pauli.Exec.Post.{Post-and, Post-annotate, Post-bind, Post-weaken, IfOk}
use pauli.Storage.{ValidatorEpochRecord, epoch, Db, World, at}
use pauli.Storage.Keeps.{Keeps, Keeps-execute, Keeps-annotate}
use pauli.Storage.Progress.{mark_epoch_indexed, mark_progress}
use pauli.Storage.Progress.Marks.{IsMarked, mark_progress-Post, with_mark}
use pauli.Beacon.{Validator, AttestationReward, AttestationRewardsData}
use pauli.Config.{slots_per_epoch}
use pauli.Indexing.{rewards_state_not_yet_available, fetch}
use pauli.Indexing.Epochs.{
  EpochIndexer, RewardMap, finish_epoch, save_validator_epoch_records_batched,
  merge_validator_epoch_records, fetch_attestation_rewards_by_index, rewards_by_index, index_epoch,
  with_rewards, reward_at,
}
use pauli.Indexing.Epochs.Batches.{HasRow, Covers, Saved, batched-Saved, batched-Keeps}

-- The records of a merge have the keys of the validators, in order.
abbrev pub Indexed : ℕ → List ValidatorEpochRecord → List Validator → Type 0
Indexed e rows vs = All (λ (v : Validator). HasRow v.index e rows) vs

with_rewards-HasRow :
    (o : Option AttestationReward) (new : ValidatorEpochRecord) (rows : List ValidatorEpochRecord)
    → HasRow (with_rewards o new).validator_index (with_rewards o new).epoch rows
    → HasRow new.validator_index new.epoch rows
unfolding with_rewards
with_rewards-HasRow none new rows h = h
with_rewards-HasRow (some a) new rows h = h

merge-Indexed :
    (now : ℕ) (vs : List Validator) (e slot : ℕ) (m : RewardMap) (rows : List ValidatorEpochRecord)
    → Covers rows (merge_validator_epoch_records now vs e slot m)
    → Indexed e rows vs
unfolding merge_validator_epoch_records
merge-Indexed now [] e slot m rows h = tt
merge-Indexed now (v ∷ vs) e slot m rows h =
    (with_rewards-HasRow (reward_at v.index m) _ rows h.0, merge-Indexed now vs e slot m rows h.1)

module _ (idx : EpochIndexer) (e : ℕ) where
  abbrev start_slot : ℕ
  start_slot = (e * slots_per_epoch) % 2 ^ 64

  mark-records :
      (rows : List ValidatorEpochRecord)
      → Keeps (λ d. d.records ≡ rows) (mark_epoch_indexed idx.repo e)
  unfolding mark_epoch_indexed mark_progress
  mark-records rows =
      Keeps-annotate _ _ (Keeps-execute idx.repo _ (with_mark epoch e) (λ now d h. h))

  -- What the indexing of the epoch leaves for the validators `vs` if it returns no error.
  abbrev pub Complete : List Validator → Unit {0} → World → Type 0
  Complete vs _ w' = IsMarked w' epoch e × Indexed e w'.db.records vs

  mark-Complete :
      (vs : List Validator) (context : Text) (w : World)
      → Indexed e w.db.records vs
      → IfOk (Complete vs) (annotate context (mark_epoch_indexed idx.repo e) w)
  unfolding mark_epoch_indexed
  mark-Complete vs context w h =
      Post-annotate (Complete vs) (λ _. Unit {0}) context (mark_epoch_indexed idx.repo e) w
        (Post-weaken {R = Complete vs} {F = λ _. Unit {0}} (mark_epoch_indexed idx.repo e w)
          (λ _ w' k. (k.0.1, subst (λ rows. Indexed e rows vs) (sym k.1) h)) (λ _ _. tt)
          (Post-and _ _ (λ w'. w'.db.records ≡ w.db.records) (mark_epoch_indexed idx.repo e w)
            (mark_progress-Post idx.repo epoch e w) ((mark-records w.db.records).stays w refl)))

  module _ (w : World) (vs : List Validator) (n : ℕ)
      (got : idx.client.get_validators_all_at_slot start_slot w.calls ≡ (ok vs, n)) where
    -- If the validators and the rewards of the epoch are fetched and no error is returned, then the
    -- epoch is marked and each of the validators has a row for it.
    pub index_epoch-Complete :
        (resp : AttestationRewardsData) (m : ℕ)
        → idx.client.get_attestation_rewards e [] n ≡ (ok resp, m)
        → IfOk (Complete vs) (index_epoch idx e w)
    unfolding index_epoch fetch_attestation_rewards_by_index fetch
    index_epoch-Complete resp m rewards =
        rw (got, rewards)
          (Post-bind (Saved merged (at m w.db)) (Complete vs) (λ _. Unit {0})
            (save_validator_epoch_records_batched idx.repo merged)
            (λ _. finish_epoch idx e (some found)) (at m w.db)
            (batched-Saved idx.repo merged (at m w.db))
            (λ _ w' saved.
              mark-Complete vs _ w' (merge-Indexed _ vs e start_slot found w'.db.records saved.0)))
      where
        found : RewardMap
        found = rewards_by_index resp.total_rewards []

        merged : List ValidatorEpochRecord
        merged = merge_validator_epoch_records (idx.repo.clock m) vs e start_slot found

    -- If the validators are fetched, the rewards are judged not available yet and no error is
    -- returned, then each of the validators has a row for the epoch, and the progress is as
    -- before.
    pub index_epoch-Pending :
        (e' : Error) (m : ℕ)
        → idx.client.get_attestation_rewards e [] n ≡ (err e', m)
        → rewards_state_not_yet_available e' ≡ true
        → IfOk
            (λ _ w'. (w'.db.progress ≡ w.db.progress) × Indexed e w'.db.records vs)
            (index_epoch idx e w)
    unfolding index_epoch fetch_attestation_rewards_by_index fetch
    index_epoch-Pending e' m rewards early =
        rw (got, rewards, early)
          (Post-bind (λ u w'. Saved merged (at m w.db) u w' × (w'.db.progress ≡ w.db.progress))
            (λ _ w'. (w'.db.progress ≡ w.db.progress) × Indexed e w'.db.records vs) (λ _. Unit {0})
            (save_validator_epoch_records_batched idx.repo merged) (λ _. finish_epoch idx e none)
            (at m w.db)
            (Post-and _ _ (λ w'. w'.db.progress ≡ w.db.progress)
              (save_validator_epoch_records_batched idx.repo merged (at m w.db))
              (batched-Saved idx.repo merged (at m w.db))
              ((batched-Keeps (λ (d : Db). d.progress ≡ w.db.progress) (λ d rows h. h) idx.repo
                  merged).stays
                (at m w.db) refl))
            (λ _ w' saved. (saved.1, merge-Indexed _ vs e start_slot [] w'.db.records saved.0.0)))
      where
        merged : List ValidatorEpochRecord
        merged = merge_validator_epoch_records (idx.repo.clock m) vs e start_slot []
