-- ===== src/Beacon/Duties.antt =====
-- internal/beacon/duties.go, the single-validator queries of validators.go, and the maps by
-- validator index that duties.go and rewards.go build. The GET and POST requests are given with the
-- decoding of the response.
pub mod Lookup
pub mod Slots
use pauli.Common.{
  ℕ, ◌+◌, ◌-◌, ◌*◌, ◌/◌, ◌%◌, ◌^◌, Bool, Option, none, some, List, [], ◌∷◌, ◌++◌, ◌==◌, map,
  if◌then◌else◌,
}
use pauli.Common.Int.{ℤ, pos, ◌+ℤ◌, i64, ltb_ℤ}
use pauli.Text.{Text, text, format_uint}
use pauli.Exec.{Error, Exec, pure, annotate, ◌>>=◌}
use pauli.Beacon.{Fetch, Validator, AttestationReward, AttestationRewardsData}
use pauli.Beacon.Client.{get_attestation_rewards}

pub record AttesterDuty : Type 0 where
  pub pubkey : Text
  pub validator_index : ℕ
  pub committee_index : ℕ
  pub committee_length : ℕ
  pub committees_at_slot : ℕ
  pub validator_committee_index : ℕ
  pub slot : ℕ

pub record AttesterDutiesResponse : Type 0 where
  pub dependent_root : Text
  pub execution_optimistic : Bool
  pub duties : List AttesterDuty

unfoldable pub get_attester_duties :
    (Text → List Text → Fetch AttesterDutiesResponse) → ℕ → List ℕ → Fetch AttesterDutiesResponse
get_attester_duties post epoch indices =
    annotate (text "failed to get attester duties for epoch " ++ format_uint epoch) (
      post (text "/eth/v1/validator/duties/attester/" ++ format_uint epoch)
        (map format_uint indices))

-- A Go map from validator indices, as what it holds under each index.
module _ {A : Type 0} where
  abbrev pub put : ℕ → A → (ℕ → Option A) → ℕ → Option A
  put k a m j = if j == k then some a else m j

  -- for i := range rows { m[index(rows[i])] = &rows[i] }
  unfoldable pub put_all : (A → ℕ) → (ℕ → Option A) → List A → ℕ → Option A
  put_all index m [] = m
  put_all index m (x ∷ xs) = put_all index (put (index x) x m) xs

unfoldable pub get_attester_duties_map :
    (Text → List Text → Fetch AttesterDutiesResponse) → ℕ → List ℕ → Fetch (ℕ → Option AttesterDuty)
get_attester_duties_map post epoch indices = get_attester_duties post epoch indices >>= λ resp.
    pure (put_all (λ (duty : AttesterDuty). duty.validator_index) (λ _. none) resp.duties)

unfoldable pub get_attestation_rewards_map :
    (Text → List Text → Fetch AttestationRewardsData)
    → ℕ
    → List ℕ
    → Fetch (ℕ → Option AttestationReward)
get_attestation_rewards_map post epoch indices =
    get_attestation_rewards post epoch indices >>= λ resp. pure (
      put_all (λ (reward : AttestationReward). reward.validator_index) (λ _. none)
        resp.total_rewards)

pub record RewardSummary : Type 0 where
  pub validator_index : ℕ
  pub head_reward : ℤ
  pub source_reward : ℤ
  pub target_reward : ℤ
  pub total_reward : ℤ
  pub is_penalty : Bool

-- The sums are int64.
unfoldable pub calculate_reward_summary : AttestationReward → RewardSummary
calculate_reward_summary reward =
    let total = i64 (i64 (reward.head +ℤ reward.source) +ℤ reward.target) in
    record {
      validator_index = reward.validator_index;
      head_reward = reward.head;
      source_reward = reward.source;
      target_reward = reward.target;
      total_reward = total;
      is_penalty = ltb_ℤ total (pos 0);
    }

unfoldable pub slot_to_epoch : ℕ → ℕ
slot_to_epoch slot = slot / 32

unfoldable pub epoch_start_slot : ℕ → ℕ
epoch_start_slot epoch = epoch * 32 % 2 ^ 64

-- (epoch+1)*32 - 1, each operation on uint64.
unfoldable pub epoch_end_slot : ℕ → ℕ
epoch_end_slot epoch = ((epoch + 1) % 2 ^ 64 * 32 % 2 ^ 64 + 2 ^ 64 - 1) % 2 ^ 64

unfoldable pub is_epoch_boundary : ℕ → Bool
is_epoch_boundary slot = slot % 32 == 0

abbrev validator_path : Text → Text → Text
validator_path state_id id =
    text "/eth/v1/beacon/states/" ++ (state_id ++ (text "/validators/" ++ id))

module _ (get : Text → Fetch Validator) where
  unfoldable pub get_validator : Text → ℕ → Fetch Validator
  get_validator state_id id =
      annotate (text "failed to get validator " ++ format_uint id)
        (get (validator_path state_id (format_uint id)))

  unfoldable pub get_validator_at_slot : ℕ → ℕ → Fetch Validator
  get_validator_at_slot slot id = get_validator (format_uint slot) id

  unfoldable pub get_validator_by_pubkey : Text → Text → Fetch Validator
  get_validator_by_pubkey state_id pubkey =
      annotate (text "failed to get validator " ++ pubkey) (get (validator_path state_id pubkey))
