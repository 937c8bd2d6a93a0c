-- ===== src/Beacon.antt =====
-- internal/beacon: the values that the Beacon API returns, and the client's methods as an interface.
pub mod Node
pub mod Numbers
pub mod Client
pub mod Transport
pub mod Validators
pub mod Duties
pub mod Requests
use pauli.Common.{ℕ, Bool, Option, List}
use pauli.Common.Int.{ℤ}
use pauli.Text.{Text}
use pauli.Exec.{Exec}

-- A call that leaves the process: the state is the number of exchanges so far.
abbrev pub Fetch : Type 0 → Type 0
Fetch A = Exec ℕ A

-- beacon.Validator, with the inner struct's fields beside the outer ones.
pub record Validator : Type 0 where
  pub index : ℕ
  pub balance : ℕ
  pub status : Text
  pub pubkey : Text
  pub withdrawal_credentials : Text
  pub effective_balance : ℕ
  pub slashed : Bool
  pub activation_eligibility_epoch : ℕ
  pub activation_epoch : ℕ
  pub exit_epoch : ℕ
  pub withdrawable_epoch : ℕ

-- beacon.AttestationReward; the amounts are int64.
pub record AttestationReward : Type 0 where
  pub validator_index : ℕ
  pub head : ℤ
  pub target : ℤ
  pub source : ℤ

pub record AttestationRewardsData : Type 0 where
  pub ideal_rewards : List AttestationReward
  pub total_rewards : List AttestationReward

pub record BlockRewardsData : Type 0 where
  pub proposer_index : ℕ
  pub total : ℕ
  pub attestations : ℕ
  pub sync_aggregate : ℕ
  pub proposer_slashings : ℕ
  pub attester_slashings : ℕ

pub record SyncCommitteeRewardRow : Type 0 where
  pub validator_index : ℕ
  pub reward : ℤ

pub record SyncCommitteeRewardsResult : Type 0 where
  pub rows : List SyncCommitteeRewardRow
  pub execution_optimistic : Bool
  pub finalized : Bool

pub record BeaconBlockHeader : Type 0 where
  pub slot : ℕ
  pub proposer_index : ℕ
  pub parent_root : Text
  pub state_root : Text
  pub body_root : Text

-- The methods of beacon.Client that the indexers, steps and runners call.
pub record BeaconApi : Type 0 where
  pub get_block_header : Text → Fetch BeaconBlockHeader
  pub get_head_slot : Fetch ℕ
  pub finalized_epoch : Fetch ℕ
  pub get_block_rewards : Text → Fetch BlockRewardsData
  pub get_validators_at_slot : ℕ → List ℕ → Fetch (List Validator)
  pub get_validators_all_at_slot : ℕ → Fetch (List Validator)
  pub get_block_execution_block_number : Text → Fetch (Option ℕ)
  pub get_sync_committee_rewards : Text → List ℕ → Fetch SyncCommitteeRewardsResult
  pub get_attestation_rewards : ℕ → List ℕ → Fetch AttestationRewardsData

-- The method of execution.Client that the block indexer calls.
pub record ExecutionApi : Type 0 where
  pub priority_fees_wei_decimal_string : ℕ → Fetch Text
