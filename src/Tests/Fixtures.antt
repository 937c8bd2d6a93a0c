-- ===== src/Tests/Fixtures.antt =====
-- A node, a database and settings that answer every call.
use pauli.Common.{ℕ, suc, true, false, none, some, List, [], ◌∷◌}
use pauli.Common.Int.{pos, negsuc}
use pauli.Text.{Text, text}
use pauli.Exec.{Error, http_response, ok, err}
use pauli.Storage.{Repository, answered, Db, World, ValidatorEpochRecord, Block, slot, epoch}
use pauli.Config.{BackfillConf}
use pauli.Beacon.{
  Fetch, BeaconApi, Validator, AttestationReward, AttestationRewardsData, BlockRewardsData,
  BeaconBlockHeader,
}
use pauli.Beacon.Client.{get_block_rewards}
use pauli.Indexing.Blocks.{BlockIndexer}
use pauli.Indexing.Epochs.{EpochIndexer}
use pauli.Backfill.{SlotPass, EpochPass}
use pauli.Backfill.Runner.{Runner, Options, OneShotBounds}

abbrev pub repo : Repository
repo = record { fate = λ n. answered; clock = λ n. 7 }

abbrev pub replies : {A : Type 0} → A → Fetch A
replies a n = (ok a, suc n)

abbrev pub fails : {A : Type 0} → Error → Fetch A
fails e n = (err e, suc n)

abbrev pub validator : ℕ → Validator
validator i = record {
  index = i;
  balance = 32;
  status = text "active_ongoing";
  pubkey = text "0xab";
  withdrawal_credentials = text "0x00";
  effective_balance = 32;
  slashed = false;
  activation_eligibility_epoch = 0;
  activation_epoch = 0;
  exit_epoch = 9;
  withdrawable_epoch = 9;
}

abbrev pub header : BeaconBlockHeader
header = record {
  slot = 4;
  proposer_index = 3;
  parent_root = text "p";
  state_root = text "s";
  body_root = text "b";
}

abbrev pub block_rewards : BlockRewardsData
block_rewards = record {
  proposer_index = 3;
  total = 50;
  attestations = 50;
  sync_aggregate = 0;
  proposer_slashings = 0;
  attester_slashings = 0;
}

abbrev pub reward : AttestationReward
reward = record { validator_index = 3; head = pos 1; target = pos 2; source = negsuc 4 }

abbrev pub attestation_rewards : AttestationRewardsData
attestation_rewards = record { ideal_rewards = []; total_rewards = reward ∷ [] }

abbrev pub two_validators : List Validator
two_validators = validator 3 ∷ validator 5 ∷ []

abbrev pub node : BeaconApi
node = record {
  get_block_header = λ id. replies header;
  get_head_slot = replies 70;
  finalized_epoch = replies 2;
  get_block_rewards = λ id. replies block_rewards;
  get_validators_at_slot = λ s is. replies (validator 3 ∷ []);
  get_validators_all_at_slot = λ s. replies two_validators;
  get_block_execution_block_number = λ id. replies (some 90);
  get_sync_committee_rewards =
      λ id is. replies (record { rows = []; execution_optimistic = false; finalized = true });
  get_attestation_rewards = λ e is. replies attestation_rewards;
}

abbrev pub missing : Error
missing = http_response 404 (text "/eth") (text "NOT_FOUND")

abbrev pub broken : Error
broken = http_response 500 (text "/eth") (text "oops")

-- The rewards are not there yet; and a node whose rewards endpoint is out of order.
abbrev pub pending_node : BeaconApi
pending_node = record node { get_attestation_rewards = λ e is. fails missing }

abbrev pub broken_get : Text → Fetch BlockRewardsData
broken_get path = fails broken

abbrev pub broken_node : BeaconApi
broken_node = record node { get_block_rewards = get_block_rewards (λ t. t) broken_get }

abbrev pub one_row : ValidatorEpochRecord
one_row = record {
  validator_index = 3;
  epoch = 1;
  epoch_start_slot = 32;
  status = text "active";
  balance = 32;
  effective_balance = 32;
  head_reward = some (pos 1);
  source_reward = some (pos 1);
  target_reward = some (pos 1);
  total_reward = some (pos 3);
  indexed_at = 5;
}

-- A later row of the same key, without rewards.
abbrev pub bare_row : ValidatorEpochRecord
bare_row = record one_row {
  balance = 33;
  head_reward = none;
  source_reward = none;
  target_reward = none;
  total_reward = none;
}

abbrev pub one_block : Block
one_block = record {
  validator_index = 3;
  validator_pubkey = text "0xab";
  slot_number = 4;
  block_number = some 90;
  rewards = 50;
  execution_priority_fees_wei = none;
  execution_mev_fees_wei = none;
  sync_committee_rewards = none;
  timestamp = 0;
}

-- Slots 4 and 5 and epoch 1 have been indexed.
abbrev pub db : Db
db = record {
  progress =
      record { kind = slot; position = 4; completed_at = 1 }
      ∷ record { kind = slot; position = 5; completed_at = 1 }
      ∷ record { kind = epoch; position = 1; completed_at = 1 }
      ∷ [];
  records = one_row ∷ [];
  blocks = one_block ∷ [];
}

abbrev pub start : World
start = record { calls = 0; db = db }

abbrev pub conf : BackfillConf
conf = record {
  enabled = true;
  start_slot = 4;
  start_epoch = 1;
  end_slot = none;
  end_epoch = none;
  lag_behind_head = 4;
  slots_per_pass = pos 8;
  epochs_per_pass = pos 2;
  poll_delay_ms = pos 100;
  idle_poll_delay_ms = pos 12000;
}

abbrev pub block_idx : BlockIndexer
block_idx = record { client = node; execution = none; repo = repo }

abbrev pub broken_idx : BlockIndexer
broken_idx = record { client = broken_node; execution = none; repo = repo }

abbrev pub epoch_idx : EpochIndexer
epoch_idx = record { client = node; repo = repo }

abbrev pub pending_idx : EpochIndexer
pending_idx = record { client = pending_node; repo = repo }

abbrev pub slot_pass : SlotPass
slot_pass = record {
  cfg = conf;
  start_slot_override = none;
  end_slot_override = none;
  client = node;
  exec = none;
  repo = repo;
  get_head = replies 70;
}

abbrev pub epoch_pass : EpochPass
epoch_pass = record {
  cfg = conf;
  start_epoch_override = none;
  end_epoch_override = none;
  client = node;
  repo = repo;
}

abbrev pub bounds : OneShotBounds
bounds = record { end_slot = 9; end_epoch = 1 }

abbrev pub one_shot : Options
one_shot = record {
  start_slot = some 4;
  end_slot = some 9;
  start_epoch = none;
  end_epoch = some 1;
  one_shot = true;
}

abbrev pub runner : Runner
runner = record {
  cfg = conf;
  opts = one_shot;
  client = node;
  exec = none;
  repo = repo;
  get_head = replies 70;
  idle = false;
  one_shot_bounds = some bounds;
}
