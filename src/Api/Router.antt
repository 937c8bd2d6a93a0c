-- ===== src/Api/Router.antt =====
-- internal/api/router.go and handlers/health.go: the routes, each with its handler over the store.
-- Matching a path against a pattern is gin's.
pub mod Pages
pub mod Handles
pub mod Serves
pub mod Scoped
use pauli.Common.{ℕ, true, Option, none, some, List, [], ◌∷◌, ◌++◌, map}
use pauli.Text.{Text, text, is_empty}
use pauli.Exec.{Result, ok, err, Exec, pure, annotate, ◌>>=◌, recover}
use pauli.Storage.{Block, Db, World, Repository, query}
use pauli.Storage.Connection.{health_check}
use pauli.Storage.Reads.{
  ValidatorSnapshot, AttestationReward, SyncCommitteeReward, list_attestation_rewards, list_blocks,
  list_validator_snapshots, get_latest_snapshot,
}
use pauli.Storage.Reads
use pauli.Storage.Reads.SyncCommittee.{list_sync_committee_rewards}
use pauli.Api.{
  Request, Response, bad_request, not_found, internal, page, value, parse_epoch_window,
  parse_slot_window, list_rewards, list_rewards_scoped, latest_snapshot, list_snapshots,
  count_snapshots, list_validators,
}

-- What the JSON of an answer is made of.
pub data Row : Type 0 where
  attestation : AttestationReward → Row
  block : Block → Row
  sync_reward : SyncCommitteeReward → Row
  snapshot : ValidatorSnapshot → Row
  validator : ℕ → Row
  row_count : ℕ → Row

pub data Answer : Type 0 where
  json : Response Row → Answer
  -- c.Status
  status_only : ℕ → Answer
  -- c.Data
  raw : (status : ℕ) (content_type body : Text) → Answer

-- A route of method GET.
pub record Route : Type 0 where
  pub pattern : Text
  pub handler : Request → Exec World Answer

abbrev pub map_response : {A B : Type 0} → (A → B) → Response A → Response B
map_response f (bad_request message) = bad_request message
map_response f (not_found message) = not_found message
map_response f internal = internal
map_response f (page rows limit offset count) = page (map f rows) limit offset count
map_response f (value a) = value (f a)

abbrev pub as_json : {A : Type 0} → (A → Row) → Exec World (Response A) → Exec World Answer
as_json f m = m >>= λ response. pure (json (map_response f response))

unfoldable pub healthz : Repository → Request → Exec World Answer
healthz r c =
    recover (health_check r) (λ healthy. pure (status_only 200)) (λ e. pure (status_only 503))

-- The first file that can be read and is not empty; os.ReadFile is given.
abbrev pub usable : Option Text → Option Text → Option Text
usable none later = later
usable (some []) later = later
usable (some (c ∷ cs)) later = some (c ∷ cs)

abbrev pub spec_routes : Option Text → List Route
spec_routes none = []
spec_routes (some spec) =
    record {
      pattern = text "/openapi.yaml";
      handler = λ c. pure (raw 200 (text "application/yaml") spec);
    }
    ∷ []

unfoldable pub mount_openapi_spec : (Text → Option Text) → List Route
mount_openapi_spec read_file = spec_routes (
    usable (read_file (text "docs/openapi.yaml"))
      (usable (read_file (text "./docs/openapi.yaml")) none))

module _ (r : Repository) where
  abbrev pub query_routes : List Route
  query_routes =
      record {
        pattern = text "/v1/validators";
        handler = λ c. as_json validator (list_validators (Reads.list_validators r) c);
      }
      ∷ (record {
        pattern = text "/v1/attestation-rewards";
        handler = λ c.
            as_json attestation
              (list_rewards parse_epoch_window (list_attestation_rewards r) c none);
      }
          ∷ (record {
            pattern = text "/v1/block-proposer-rewards";
            handler = λ c. as_json block (list_rewards parse_slot_window (list_blocks r) c none);
          }
              ∷ (record {
                pattern = text "/v1/sync-committee-rewards";
                handler = λ c.
                    as_json sync_reward
                      (list_rewards parse_slot_window (list_sync_committee_rewards r) c none);
              }
                  ∷ [])))

  abbrev pub snapshot_routes : List Route
  snapshot_routes =
      record {
        pattern = text "/v1/validators/:validatorIndex/snapshots/latest";
        handler = λ c. as_json snapshot (latest_snapshot (get_latest_snapshot r) c);
      }
      ∷ (record {
        pattern = text "/v1/validators/:validatorIndex/snapshots";
        handler = λ c. as_json snapshot (list_snapshots (list_validator_snapshots r) c);
      }
          ∷ (record {
            pattern = text "/v1/validators/:validatorIndex/snapshots/count";
            handler = λ c. as_json row_count (count_snapshots (Reads.count_snapshots r) c);
          }
              ∷ []))

  abbrev pub reward_routes : List Route
  reward_routes =
      record {
        pattern = text "/v1/validators/:validatorIndex/attestation-rewards";
        handler = λ c.
            as_json attestation
              (list_rewards_scoped parse_epoch_window (list_attestation_rewards r) c);
      }
      ∷ (record {
        pattern = text "/v1/validators/:validatorIndex/block-proposer-rewards";
        handler = λ c. as_json block (list_rewards_scoped parse_slot_window (list_blocks r) c);
      }
          ∷ (record {
            pattern = text "/v1/validators/:validatorIndex/sync-committee-rewards";
            handler = λ c.
                as_json sync_reward
                  (list_rewards_scoped parse_slot_window (list_sync_committee_rewards r) c);
          }
              ∷ []))

  abbrev pub validator_routes : List Route
  validator_routes = snapshot_routes ++ reward_routes

  unfoldable pub new_router : (Text → Option Text) → List Route
  new_router read_file =
      record { pattern = text "/healthz"; handler = healthz r }
      ∷ (mount_openapi_spec read_file ++ (query_routes ++ validator_routes))
