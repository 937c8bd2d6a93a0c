-- ===== src/Beacon/Client.antt =====
-- internal/beacon/rewards.go: the methods of the client over its GET and POST requests, which are
-- given with the decoding of the response.
use pauli.Common.{ℕ, Option, List, ◌++◌, map}
use pauli.Text.{Text, text, format_uint}
use pauli.Exec.{annotate}
use pauli.Beacon.{Fetch, BlockRewardsData, AttestationRewardsData, SyncCommitteeRewardsResult}

-- url.PathEscape is given.
abbrev pub block_rewards_path : (Text → Text) → Text → Text
block_rewards_path escape block_id = text "/eth/v1/beacon/rewards/blocks/" ++ escape block_id

unfoldable pub get_block_rewards :
    (Text → Text) → (Text → Fetch BlockRewardsData) → Text → Fetch BlockRewardsData
get_block_rewards escape get block_id =
    annotate (text "failed to get block rewards for " ++ block_id)
      (get (block_rewards_path escape block_id))

unfoldable pub get_attestation_rewards :
    (Text → List Text → Fetch AttestationRewardsData) → ℕ → List ℕ → Fetch AttestationRewardsData
get_attestation_rewards post epoch indices =
    annotate (text "failed to get attestation rewards for epoch " ++ format_uint epoch) (
      post (text "/eth/v1/beacon/rewards/attestations/" ++ format_uint epoch)
        (map format_uint indices))

-- What is decoded of the block: the execution payload's number, if there is a payload.
unfoldable pub get_block_execution_block_number :
    (Text → Text) → (Text → Fetch (Option ℕ)) → Text → Fetch (Option ℕ)
get_block_execution_block_number escape get block_id =
    get (text "/eth/v2/beacon/blocks/" ++ escape block_id)

unfoldable pub get_sync_committee_rewards :
    (Text → Text)
    → (Text → List Text → Fetch SyncCommitteeRewardsResult)
    → Text
    → List ℕ
    → Fetch SyncCommitteeRewardsResult
get_sync_committee_rewards escape post block_id indices =
    annotate (text "failed to get sync committee rewards for " ++ block_id) (
      post (text "/eth/v1/beacon/rewards/sync_committee/" ++ escape block_id)
        (map format_uint indices))
