-- ===== src/Indexing/Blocks.antt =====
-- block.go and sync_rewards.go: the indexing of one slot.
pub mod Outcome
pub mod SyncRewards
use pauli.Common.{ℕ, Bool, true, false, Option, none, some, List, [], ◌∷◌, ◌++◌, if◌then◌else◌}
use pauli.Common.Int.{ℤ}
use pauli.Text.{Text, text, text_eq, format_uint}
use pauli.Exec.{
  Error, wrap, plain, Result, ok, err, Exec, pure, raise, annotate, recover, ◌>>=◌, ◌>>◌,
}
use pauli.Storage.{Block, BlockSyncCommitteeRewards, World, Repository}
use pauli.Storage.Blocks.{save_block}
use pauli.Beacon.{
  BeaconApi, ExecutionApi, BeaconBlockHeader, BlockRewardsData, Validator, SyncCommitteeRewardRow,
  SyncCommitteeRewardsResult,
}
use pauli.Indexing.{is_not_found, rewards_state_not_yet_available, fetch, time_now}

-- rewards[key] = reward
unfoldable pub set_reward : Text → ℤ → List (Text × ℤ) → List (Text × ℤ)
set_reward k v [] = (k, v) ∷ []
set_reward k v ((j, u) ∷ m) = if text_eq k j then (k, v) ∷ m else (j, u) ∷ set_reward k v m

unfoldable pub collect_rewards : List SyncCommitteeRewardRow → List (Text × ℤ) → List (Text × ℤ)
collect_rewards [] m = m
collect_rewards (row ∷ rows) m =
    collect_rewards rows (set_reward (format_uint row.validator_index) row.reward m)

unfoldable pub block_sync_committee_rewards_from_beacon :
    Option SyncCommitteeRewardsResult → Option BlockSyncCommitteeRewards
block_sync_committee_rewards_from_beacon none = none
block_sync_committee_rewards_from_beacon (some result) = some (record {
  execution_optimistic = result.execution_optimistic;
  finalized = result.finalized;
  rewards = collect_rewards result.rows [];
})

pub record BlockIndexer : Type 0 where
  pub client : BeaconApi
  pub execution : Option ExecutionApi
  pub repo : Repository

abbrev at_slot : Text → ℕ → Text
at_slot what slot = what ++ format_uint slot

module _ (idx : BlockIndexer) (slot : ℕ) where
  -- The number of the execution block; any failure leaves it out.
  abbrev execution_block : Exec World (Option ℕ)
  execution_block =
      recover (fetch (idx.client.get_block_execution_block_number (format_uint slot))) (λ n. pure n)
        (λ e. pure none)

  abbrev fees_of : Option ExecutionApi → Option ℕ → Exec World (Option Text)
  fees_of none n = pure none
  fees_of (some client) none = pure none
  fees_of (some client) (some n) =
      recover (fetch (client.priority_fees_wei_decimal_string n)) (λ fees. pure (some fees))
        (λ e. pure none)

  abbrev sync_rewards : Exec World (Option BlockSyncCommitteeRewards)
  sync_rewards =
      recover (fetch (idx.client.get_sync_committee_rewards (format_uint slot) []))
        (λ result. pure (block_sync_committee_rewards_from_beacon (some result)))
        (λ e.
          if rewards_state_not_yet_available e
          then pure none
          else raise (wrap (at_slot (text "get sync committee rewards slot ") slot) e))

  -- validatorsResp[0].Validator.Pubkey
  abbrev proposer_pubkey : ℕ → List Validator → Exec World Text
  proposer_pubkey proposer [] = raise (
      plain (
        text "no validator state for proposer "
        ++ (format_uint proposer ++ at_slot (text " at slot ") slot)))
  proposer_pubkey proposer (v ∷ vs) = pure v.pubkey

  -- From the fetched rewards to the saved row.
  unfoldable pub save_indexed_block : ℕ → BlockRewardsData → Exec World (Unit {0})
  save_indexed_block proposer rewards = do
    validators ←
        annotate (at_slot (text "get proposer validator at slot ") slot)
          (fetch (idx.client.get_validators_at_slot slot (proposer ∷ [])))
    pubkey ← proposer_pubkey proposer validators
    exec_block ← execution_block
    now ← time_now idx.repo
    fees ← fees_of idx.execution exec_block
    sync ← sync_rewards
    annotate (at_slot (text "save block slot ") slot) (
        save_block idx.repo (record {
          validator_index = proposer;
          validator_pubkey = pubkey;
          slot_number = slot;
          block_number = exec_block;
          rewards = rewards.total;
          execution_priority_fees_wei = fees;
          execution_mev_fees_wei = none;
          sync_committee_rewards = sync;
          timestamp = now;
        }))

  -- What follows the header: rewards that are not available yet end the call without an error.
  unfoldable pub index_header : BeaconBlockHeader → Exec World (Unit {0})
  index_header header =
      recover (fetch (idx.client.get_block_rewards (format_uint slot)))
        (λ rewards. save_indexed_block header.proposer_index rewards)
        (λ e.
          if rewards_state_not_yet_available e
          then pure tt
          else raise (wrap (at_slot (text "get block rewards slot ") slot) e))

  unfoldable pub index_block_at_slot : Exec World (Unit {0})
  index_block_at_slot =
      recover (fetch (idx.client.get_block_header (format_uint slot)))
        (λ header. index_header header)
        (λ e.
          if is_not_found e
          then pure tt
          else raise (wrap (at_slot (text "block header slot ") slot) e))
