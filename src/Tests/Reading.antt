-- ===== src/Tests/Reading.antt =====
-- The theorems on the repository's queries, at concrete inputs.
use pauli.Common.{◌*◌, ◌≤◌, length, ◌≡◌, refl, Option, some, List, [], ◌∷◌, arith, inl, true, false}
use pauli.Common.Int.{pos, negsuc}
use pauli.Common.Orders.{cut, order_by, select_rows, insert_row}
use pauli.Text.{text, parse_uint, digits_value}
use pauli.Exec.{ok}
use pauli.Storage.{Block, at}
use pauli.Storage.Records.Whole.{AllWhole}
use pauli.Storage.Reads.{
  AttestationReward, attestation_rows, snapshot_rows, scan_attestation, list_attestation_rewards,
  list_blocks, list_validator_snapshots, get_validator_snapshots,
}
use pauli.Storage.Reads.Scan.{Scanned}
use pauli.Storage.Reads.Attestations.{list_attestation_rewards-Readable}
use pauli.Storage.Reads.Snapshots.{list_pages, list_pages-all}
use pauli.Storage.Reads.SyncCommittee.{scoped_rows, global_rows}
use pauli.Storage.Reads.SyncCommittee.Scopes.{Agrees, CanonicalRewards, global_rows-Agrees}
use pauli.Beacon.{SyncCommitteeRewardsResult}
use pauli.Indexing.Blocks.{block_sync_committee_rewards_from_beacon}
use pauli.Indexing.Blocks.SyncRewards.Keys.{Stored, rewards_from_beacon-Stored}
use pauli.Indexing.Epochs.{index_epoch_at_boundary}
use pauli.Indexing.Epochs.Whole.{index_epoch_at_boundary-Whole}
use pauli.Api.{Request, parse_uint_path, parse_epoch_window, list_rewards_scoped}
use pauli.Common.{none, inr}
use pauli.Common.Orders.{In}
use pauli.Text.{Text}
use pauli.Storage.Reads
use pauli.Api.{list_validators}
use pauli.Api.Router.{Row, Route, as_json, new_router, mount_openapi_spec}
use pauli.Api.Router.Scoped.{ServesOf, validator_routes-ServesOf}
use pauli.Api.Router.Serves.{Serves, new_router-Serves}
use pauli.Tests.Fixtures.{repo, start, db, epoch_idx, one_block}

-- The table's only record has all rewards.
whole : AllWhole db
whole = (inl (pos 1, pos 1, pos 1, pos 3, refl, refl, refl, refl), tt)

list_attestation_rewards-Readable_example :
    (rewards : List AttestationReward) × (list_attestation_rewards repo (some 3) (1, 2) 10 0 start
      ≡ (ok rewards, at 1 db))
    × Scanned scan_attestation (cut 10 0 (attestation_rows (some 3) 1 2 db)) rewards
list_attestation_rewards-Readable_example =
    list_attestation_rewards-Readable repo (some 3) 1 2 10 0 start whole refl refl

index_epoch_at_boundary-Whole_example : AllWhole (index_epoch_at_boundary epoch_idx 2 start).1.db
index_epoch_at_boundary-Whole_example = index_epoch_at_boundary-Whole epoch_idx 2 start whole

-- Two pages of one row each hold the one row.
enough : length (snapshot_rows 3 0 64 db) ≤ 2 * 1
unfolding order_by select_rows insert_row
enough = omega arith

list_pages-all_example :
    (list_pages (list_validator_snapshots repo 3 (0, 64)) 1 2 (at 0 db)).0
    ≡ (get_validator_snapshots repo 3 0 64 (at 5 db)).0
list_pages-all_example = list_pages-all repo 3 0 64 db refl (λ n. refl) 1 2 0 5 enough

-- A node's answer for two validators.
abbrev answer : Option SyncCommitteeRewardsResult
answer = some (record {
  rows =
      record { validator_index = 3; reward = pos 12 }
      ∷ record { validator_index = 5; reward = negsuc 8 }
      ∷ [];
  execution_optimistic = false;
  finalized = true;
})

rewards_from_beacon-Stored_example :
    CanonicalRewards (block_sync_committee_rewards_from_beacon answer)
    × Stored 5 answer (block_sync_committee_rewards_from_beacon answer)
rewards_from_beacon-Stored_example =
    rewards_from_beacon-Stored answer 5 (omega arith, (omega arith, tt)) (omega arith)

abbrev synced : Block
synced = record one_block {
  sync_committee_rewards = block_sync_committee_rewards_from_beacon answer;
}

stored : CanonicalRewards synced.sync_committee_rewards
stored = (rewards_from_beacon-Stored answer 5 (omega arith, (omega arith, tt)) (omega arith)).0

global_rows-Agrees_example : Agrees 5 (scoped_rows 5 (synced ∷ [])) (global_rows (synced ∷ []))
global_rows-Agrees_example = global_rows-Agrees 5 (omega arith) (synced ∷ []) (stored, tt)

-- GET /v1/validators/3/…?epoch=…
abbrev request : Request
request = record { param = λ name. text "3"; query = λ name. text "1" }

named : parse_uint_path request (text "validatorIndex") ≡ ok 3
unfolding parse_uint_path parse_uint digits_value text
named = refl

abbrev attestations : Route
attestations = record {
  pattern = text "/v1/validators/:validatorIndex/attestation-rewards";
  handler = λ c.
      as_json Row.attestation
        (list_rewards_scoped parse_epoch_window (list_attestation_rewards repo) c);
}

validator_routes-ServesOf_example : ServesOf 3 (attestations.handler request start)
validator_routes-ServesOf_example =
    validator_routes-ServesOf repo attestations request 3 start (inr (inr (inr (inl refl)))) named

-- No file of the specification can be read, so the health check is in front of the lists.
abbrev no_file : Text → Option Text
no_file path = none

abbrev validators : Route
validators = record {
  pattern = text "/v1/validators";
  handler = λ c. as_json Row.validator (list_validators (Reads.list_validators repo) c);
}

listed : In validators (new_router repo no_file)
unfolding new_router mount_openapi_spec
listed = inr (inl refl)

new_router-Serves_example : Serves start.db (validators.handler request start)
new_router-Serves_example = new_router-Serves repo no_file validators request start listed
