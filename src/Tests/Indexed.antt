-- ===== src/Tests/Indexed.antt =====
-- The theorems on the indexing of a block and of an epoch, at concrete inputs.
use pauli.Common.{List, [], ◌∷◌, ◌≡◌, refl, true}
use pauli.Text.{text, contains, format_uint, has_prefix, decimal}
use pauli.Exec.{ok}
use pauli.Exec.Post.{IfOk}
use pauli.Storage.{at}
use pauli.Storage.Blocks.Upsert.{Stores, OnlyBlocksAt}
use pauli.Indexing.{rewards_state_not_yet_available, is_not_found}
use pauli.Indexing.Availability.{index_block-masked}
use pauli.Indexing.Blocks.{index_block_at_slot}
use pauli.Indexing.Blocks.Outcome.{index_block-OnlyBlocksAt, index_block-Stores}
use pauli.Indexing.Epochs.{index_epoch}
use pauli.Indexing.Epochs.Rows.{Complete, Indexed, index_epoch-Complete, index_epoch-Pending}
use pauli.Common.Int.{pos}
use pauli.Beacon.{SyncCommitteeRewardRow}
use pauli.Tests.Fixtures.{
  start, db, block_idx, broken_idx, broken_get, epoch_idx, pending_idx, header, block_rewards,
  two_validators, attestation_rewards, missing, broken,
}

digits : contains (format_uint 4040) (text "404") ≡ true
unfolding contains has_prefix format_uint decimal text
digits = refl

early : rewards_state_not_yet_available missing ≡ true
unfolding rewards_state_not_yet_available is_not_found
early = refl

index_block-Stores_example :
    IfOk (λ _ w'. Stores 3 6 50 w'.db.blocks) (index_block_at_slot block_idx 6 start)
index_block-Stores_example = index_block-Stores block_idx 6 start header block_rewards 1 2 refl refl

index_block-OnlyBlocksAt_example :
    OnlyBlocksAt 6 start.db (index_block_at_slot block_idx 6 start).1.db
index_block-OnlyBlocksAt_example = index_block-OnlyBlocksAt block_idx 6 start

index_block-masked_example : index_block_at_slot broken_idx 4040 start ≡ (ok tt, at 2 db)
index_block-masked_example =
    index_block-masked (λ t. t) broken_get broken_idx refl 4040 1 2 start header broken digits refl
      refl

index_epoch-Complete_example :
    IfOk (Complete epoch_idx 2 two_validators) (index_epoch epoch_idx 2 start)
index_epoch-Complete_example =
    index_epoch-Complete epoch_idx 2 start two_validators 1 refl attestation_rewards 2 refl

index_epoch-Pending_example :
    IfOk
      (λ _ w'. (w'.db.progress ≡ db.progress) × Indexed 2 w'.db.records two_validators)
      (index_epoch pending_idx 2 start)
index_epoch-Pending_example =
    index_epoch-Pending pending_idx 2 start two_validators 1 refl missing 2 refl early

-- A validator with two rows, and another one.
abbrev sync_rows : List SyncCommitteeRewardRow
sync_rows =
    record { validator_index = 12; reward = pos 5 }
    ∷ record { validator_index = 1; reward = pos 6 }
    ∷ record { validator_index = 12; reward = pos 7 }
    ∷ []
