-- ===== src/Beacon/Node.antt =====
-- internal/beacon/validators.go: the queries of the node's own state, and validators by status. The
-- GET requests are given with the decoding of the response.
use pauli.Common.{ℕ, Bool, not, List, [], ◌∷◌, ◌++◌}
use pauli.Text.{Text, text}
use pauli.Exec.{annotate, pure, ◌>>=◌}
use pauli.Beacon.{Fetch, Validator, BeaconBlockHeader}

pub record Checkpoint : Type 0 where
  pub epoch : ℕ
  pub root : Text

pub record FinalityCheckpoints : Type 0 where
  pub previous_justified : Checkpoint
  pub current_justified : Checkpoint
  pub finalized : Checkpoint

pub record GenesisResponse : Type 0 where
  pub genesis_time : ℕ
  pub genesis_validators_root : Text
  pub genesis_fork_version : Text

pub record SyncingResponse : Type 0 where
  pub head_slot : ℕ
  pub sync_distance : ℕ
  pub is_syncing : Bool
  pub is_optimistic : Bool
  pub el_offline : Bool

-- c.get, for each type of response.
pub record Gets : Type 0 where
  pub get_list : Text → Fetch (List Validator)
  pub get_checkpoints : Text → Fetch FinalityCheckpoints
  pub get_header : Text → Fetch BeaconBlockHeader
  pub get_genesis_response : Text → Fetch GenesisResponse
  pub get_syncing : Text → Fetch SyncingResponse

-- The statuses behind the first one.
abbrev more_statuses : List Text → Text
more_statuses [] = text ""
more_statuses (s ∷ ss) = text "," ++ (s ++ more_statuses ss)

abbrev status_query : List Text → Text
status_query [] = text ""
status_query (s ∷ ss) = text "?status=" ++ (s ++ more_statuses ss)

module _ (g : Gets) where
  unfoldable pub get_validators_by_status : Text → List Text → Fetch (List Validator)
  get_validators_by_status state_id statuses =
      annotate (text "failed to get validators by status") (
        g.get_list (
          text "/eth/v1/beacon/states/"
          ++ (state_id ++ (text "/validators" ++ status_query statuses))))

  unfoldable pub get_finality_checkpoints : Text → Fetch FinalityCheckpoints
  get_finality_checkpoints state_id = annotate (text "failed to get finality checkpoints") (
      g.get_checkpoints
        (text "/eth/v1/beacon/states/" ++ (state_id ++ text "/finality_checkpoints")))

  unfoldable pub finalized_epoch : Fetch ℕ
  finalized_epoch = get_finality_checkpoints (text "head") >>= λ cp. pure cp.finalized.epoch

  unfoldable pub get_block_header : Text → Fetch BeaconBlockHeader
  get_block_header block_id =
      annotate (text "failed to get block header")
        (g.get_header (text "/eth/v1/beacon/headers/" ++ block_id))

  unfoldable pub get_head_slot : Fetch ℕ
  get_head_slot = get_block_header (text "head") >>= λ h. pure h.slot

  unfoldable pub get_genesis : Fetch GenesisResponse
  get_genesis =
      annotate (text "failed to get genesis")
        (g.get_genesis_response (text "/eth/v1/beacon/genesis"))

  unfoldable pub get_sync_status : Fetch SyncingResponse
  get_sync_status =
      annotate (text "failed to get sync status") (g.get_syncing (text "/eth/v1/node/syncing"))

  unfoldable pub is_node_synced : Fetch Bool
  is_node_synced = get_sync_status >>= λ status. pure (not status.is_syncing)
