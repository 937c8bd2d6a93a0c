-- ===== src/Api/Router/Handles.antt =====
-- internal/api/handlers: what each handler does, over the repository's queries.
use pauli.Api.Router.Pages.{
  Lists, Handles, or_bad-Handles, any, paged, Untouched, as_value-Handles, as_found-Handles,
  query-Untouched, list_validator_snapshots-Lists, list_validators-Lists,
}
use pauli.Common.{◌==◌, ℕ, ◌≡◌, refl, Option, some, List, [], ◌∷◌, length, map}
use pauli.Common.Orders.{select_rows, cut, order_by}
use pauli.Text.{text}
use pauli.Exec.{Result, Exec, lift, ◌>>=◌}
use pauli.Exec.Post.{Post-bind, Post-annotate}
use pauli.Storage.{encodes, World, Db, Repository, query}
use pauli.Storage.Statements.{query-Post}
use pauli.Storage.Reads
use pauli.Storage.Reads.{
  ValidatorSnapshot, later_epoch, first_row, get_latest_snapshot, scope_encodes,
  list_validator_snapshots, snapshot_of, snapshot_rows, distinct_validators, AttestationReward,
  SyncCommitteeReward, list_attestation_rewards, list_blocks, listed_block, block_rows, scan_rows,
  scan_attestation, attestation_rows,
}
use pauli.Api.{
  parse_uint_path, merge_validator_scope, snapshot_window, list_rewards_scoped, latest_snapshot,
  list_snapshots, count_snapshots, list_validators, Request, list_rewards,
}

-- The handlers of api.go over any repository queries.
module _ {A : Type 0} where
  pub list_rewards-Handles :
      (parse_window : Request → Result (ℕ × ℕ))
      (list : Option ℕ → ℕ × ℕ → ℕ → ℕ → Exec World (List A))
      → ((scope : Option ℕ) (bounds : ℕ × ℕ) (limit offset : ℕ) (w : World)
          → Lists limit w.db (list scope bounds limit offset w))
      → (c : Request) (path : Option ℕ) (w : World)
      → Handles w.db (list_rewards parse_window list c path w)
  unfolding list_rewards
  list_rewards-Handles parse_window list lists c path w =
      or_bad-Handles w.db (λ _. Unit) (merge_validator_scope c path) _ w (any _) refl
        (λ scope _.
          or_bad-Handles w.db (λ _. Unit) (parse_window c) _ w (any _) refl
            (λ bounds _. paged (list scope bounds) (lists scope bounds) c w))

  pub list_rewards_scoped-Handles :
      (parse_window : Request → Result (ℕ × ℕ))
      (list : Option ℕ → ℕ × ℕ → ℕ → ℕ → Exec World (List A))
      → ((scope : Option ℕ) (bounds : ℕ × ℕ) (limit offset : ℕ) (w : World)
          → Lists limit w.db (list scope bounds limit offset w))
      → (c : Request) (w : World) → Handles w.db (list_rewards_scoped parse_window list c w)
  unfolding list_rewards_scoped
  list_rewards_scoped-Handles parse_window list lists c w =
      or_bad-Handles w.db (λ _. Unit) (parse_uint_path c (text "validatorIndex")) _ w (any _) refl
        (λ idx _. list_rewards-Handles parse_window list lists c (some idx) w)

module _ (r : Repository) (c : Request) (w : World) where
  pub latest_snapshot-Handles : Handles w.db (latest_snapshot (get_latest_snapshot r) c w)
  unfolding latest_snapshot get_latest_snapshot
  latest_snapshot-Handles =
      or_bad-Handles w.db (λ _. Unit) (parse_uint_path c (text "validatorIndex")) _ w (any _) refl
        (λ idx _. as_found-Handles w.db (get_latest_snapshot r idx w) (
          let read : Db → List ValidatorSnapshot = λ db. map snapshot_of (
            cut 1 0 (
              order_by later_epoch (select_rows (λ row. row.validator_index == idx) db.records))) in
          let rest : List ValidatorSnapshot → Exec World ValidatorSnapshot =
            λ rows. lift (first_row rows) in
          Post-annotate (λ a v. v.db ≡ w.db) (λ v. v.db ≡ w.db)
            (text "failed to get latest snapshot") (query r (encodes idx) read >>= rest) w
            (Post-bind (λ rows v. v.db ≡ w.db) (λ a v. v.db ≡ w.db) (λ v. v.db ≡ w.db)
              (query r (encodes idx) read) rest w
              (query-Post r (encodes idx) read (λ rows v. v.db ≡ w.db) (λ v. v.db ≡ w.db) w
                (λ n e. refl) (λ n. refl))
              first)))
    where
      first :
          (rows : List ValidatorSnapshot) (v : World)
          → v.db ≡ w.db
          → Untouched w.db (lift (first_row rows) v)
      first [] v e = e
      first (row ∷ rows) v e = e

  pub list_snapshots-Handles : Handles w.db (list_snapshots (list_validator_snapshots r) c w)
  unfolding list_snapshots
  list_snapshots-Handles =
      or_bad-Handles w.db (λ _. Unit) (parse_uint_path c (text "validatorIndex")) _ w (any _) refl
        (λ idx _.
          or_bad-Handles w.db (λ _. Unit)
            (snapshot_window (c.query (text "from_slot")) (c.query (text "to_slot"))) _ w (any _)
            refl
            (λ bounds _.
              paged (list_validator_snapshots r idx bounds)
                (list_validator_snapshots-Lists r idx bounds) c w))

  pub count_snapshots-Handles : Handles w.db (count_snapshots (Reads.count_snapshots r) c w)
  unfolding count_snapshots Reads.count_snapshots
  count_snapshots-Handles =
      or_bad-Handles w.db (λ _. Unit) (parse_uint_path c (text "validatorIndex")) _ w (any _) refl
        (λ idx _. as_value-Handles w.db (Reads.count_snapshots r idx w) (
          query-Untouched r (encodes idx) (text "failed to count snapshots") w
            (λ db. length (select_rows (λ row. row.validator_index == idx) db.records))))

  pub list_validators-Handles : Handles w.db (list_validators (Reads.list_validators r) c w)
  unfolding list_validators
  list_validators-Handles = paged (Reads.list_validators r) (list_validators-Lists r) c w
