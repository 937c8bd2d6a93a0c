-- ===== src/Storage/Reads.antt =====
-- repository.go: the queries of the HTTP API. The server's answer is a function of the tables: the
-- rows of WHERE, in the order of ORDER BY (rows with equal keys stay in the table's order), cut by
-- LIMIT and OFFSET. Reading the rows afterwards may fail too.
pub mod SyncCommittee
pub mod Scan
pub mod Attestations
pub mod Snapshots
use pauli.Common.{
  ℕ, zero, ◌^◌, Bool, true, false, ◌&&◌, ◌||◌, not, Option, none, some, List, [], ◌∷◌, ◌++◌, ltb,
  leb, ◌==◌, if◌then◌else◌, length, map,
}
use pauli.Common.Int.{ℤ}
use pauli.Common.Orders.{select_rows, order_by, cut}
use pauli.Text.{Text, text, format_uint, parse_uint}
use pauli.Exec.{
  Error, plain, no_rows, wrap, Result, ok, err, annotated, and_then, Exec, annotate, lift, ◌>>=◌,
}
use pauli.Storage.{ValidatorEpochRecord, Block, Db, World, Repository, encodes, query}

-- storage.ValidatorSnapshot
pub record ValidatorSnapshot : Type 0 where
  pub validator_index : ℕ
  pub slot : ℕ
  pub status : Text
  pub balance : ℕ
  pub effective_balance : ℕ
  pub timestamp : ℕ

-- storage.AttestationReward
pub record AttestationReward : Type 0 where
  pub validator_index : ℕ
  pub epoch : ℕ
  pub head_reward : ℤ
  pub source_reward : ℤ
  pub target_reward : ℤ
  pub total_reward : ℤ
  pub timestamp : ℕ

-- storage.SyncCommitteeReward
pub record SyncCommitteeReward : Type 0 where
  pub validator_index : ℕ
  pub slot : ℕ
  pub reward_gwei : ℤ
  pub execution_optimistic : Bool
  pub finalized : Bool
  pub timestamp : ℕ

-- from <= n AND n <= to
abbrev pub within : ℕ → ℕ → ℕ → Bool
within from to n = leb from n && leb n to

-- AND validator_index = $n, where a validator is given
abbrev pub in_scope : Option ℕ → ℕ → Bool
in_scope none v = true
in_scope (some idx) v = v == idx

abbrev pub scope_encodes : Option ℕ → Bool
scope_encodes none = true
scope_encodes (some idx) = encodes idx

abbrev pub is_some : {A : Type 0} → Option A → Bool
is_some none = false
is_some (some a) = true

-- rows.Next and rows.Scan until a row fails.
unfoldable pub scan_rows : {A B : Type 0} → (A → Result B) → List A → Result (List B)
scan_rows scan [] = ok []
scan_rows scan (x ∷ xs) = and_then (scan x) (λ b. and_then (scan_rows scan xs) (λ bs. ok (b ∷ bs)))

-- A row of SELECT validator_index, epoch_start_slot, status, balance, effective_balance, indexed_at.
abbrev pub snapshot_of : ValidatorEpochRecord → ValidatorSnapshot
snapshot_of row = record {
  validator_index = row.validator_index;
  slot = row.epoch_start_slot;
  status = row.status;
  balance = row.balance;
  effective_balance = row.effective_balance;
  timestamp = row.indexed_at;
}

-- An int64 takes no NULL.
abbrev pub scan_int64 : Option ℤ → Result ℤ
scan_int64 (some n) = ok n
scan_int64 none = err (plain (text "cannot scan NULL into *int64"))

unfoldable pub scan_attestation : ValidatorEpochRecord → Result AttestationReward
scan_attestation row = and_then (scan_int64 row.head_reward) (λ head.
    and_then (scan_int64 row.source_reward) (λ source.
      and_then (scan_int64 row.target_reward) (λ target.
        and_then (scan_int64 row.total_reward) (λ total. ok (record {
          validator_index = row.validator_index;
          epoch = row.epoch;
          head_reward = head;
          source_reward = source;
          target_reward = target;
          total_reward = total;
          timestamp = row.indexed_at;
        })))))

-- ORDER BY epoch_start_slot DESC
abbrev pub later_slot : ValidatorEpochRecord → ValidatorEpochRecord → Bool
later_slot a b = leb b.epoch_start_slot a.epoch_start_slot

-- ORDER BY epoch DESC
abbrev pub later_epoch : ValidatorEpochRecord → ValidatorEpochRecord → Bool
later_epoch a b = leb b.epoch a.epoch

-- ORDER BY epoch DESC, validator_index ASC
abbrev pub newer_record : ValidatorEpochRecord → ValidatorEpochRecord → Bool
newer_record a b =
    ltb b.epoch a.epoch || (a.epoch == b.epoch && leb a.validator_index b.validator_index)

-- ORDER BY slot_number DESC, validator_index ASC
abbrev pub newer_block : Block → Block → Bool
newer_block a b =
    ltb b.slot_number a.slot_number
    || (a.slot_number == b.slot_number && leb a.validator_index b.validator_index)

-- The rows of the queries, before LIMIT and OFFSET.
abbrev pub snapshot_rows : ℕ → ℕ → ℕ → Db → List ValidatorEpochRecord
snapshot_rows v from to db = order_by later_slot (
    select_rows (λ row. row.validator_index == v && within from to row.epoch_start_slot) db.records)

abbrev pub attestation_rows : Option ℕ → ℕ → ℕ → Db → List ValidatorEpochRecord
attestation_rows scope from to db = order_by newer_record (
    select_rows
      (λ row.
        within from to row.epoch && (is_some row.head_reward && in_scope scope row.validator_index))
      db.records)

abbrev pub block_rows : Option ℕ → ℕ → ℕ → Db → List Block
block_rows scope from to db = order_by newer_block (
    select_rows (λ row. within from to row.slot_number && in_scope scope row.validator_index)
      db.blocks)

-- The columns of ListBlocks, which leave the sync committee's rewards out.
abbrev pub listed_block : Block → Block
listed_block row = record row { sync_committee_rewards = none }

-- QueryRow scans the first row, or returns pgx.ErrNoRows.
abbrev pub first_row : {A : Type 0} → List A → Result A
first_row [] = err no_rows
first_row (x ∷ xs) = ok x

-- SELECT DISTINCT validator_index
unfoldable pub distinct_validators : List ValidatorEpochRecord → List ℕ
distinct_validators [] = []
distinct_validators (row ∷ rows) =
    row.validator_index
    ∷ select_rows (λ v. not (v == row.validator_index)) (distinct_validators rows)

module _ (r : Repository) where
  unfoldable pub get_validator_snapshots : ℕ → ℕ → ℕ → Exec World (List ValidatorSnapshot)
  get_validator_snapshots v from to = annotate (text "failed to get validator snapshots") (
      query r (encodes v && (encodes from && encodes to))
        (λ db. map snapshot_of (snapshot_rows v from to db)))

  unfoldable pub list_validator_snapshots : ℕ → ℕ × ℕ → ℕ → ℕ → Exec World (List ValidatorSnapshot)
  list_validator_snapshots v (from, to) limit offset =
      annotate (text "failed to list validator snapshots") (
        query r (encodes v && (encodes from && encodes to))
          (λ db. map snapshot_of (cut limit offset (snapshot_rows v from to db))))

  unfoldable pub get_attestation_rewards : ℕ → ℕ → ℕ → Exec World (List AttestationReward)
  get_attestation_rewards v from to =
      annotate (text "failed to get attestation rewards") (
        query r (encodes v && (encodes from && encodes to)) (λ db. order_by later_epoch (
          select_rows
            (λ row.
              row.validator_index == v && (within from to row.epoch && is_some row.head_reward))
            db.records)))
      >>= λ rows.
          annotate (text "failed to scan attestation reward")
            (lift (scan_rows scan_attestation rows))

  unfoldable pub list_attestation_rewards :
      Option ℕ → ℕ × ℕ → ℕ → ℕ → Exec World (List AttestationReward)
  list_attestation_rewards scope (from, to) limit offset =
      annotate (text "failed to list attestation rewards") (
        query r (scope_encodes scope && (encodes from && encodes to))
          (λ db. cut limit offset (attestation_rows scope from to db)))
      >>= λ rows.
          annotate (text "failed to scan attestation reward")
            (lift (scan_rows scan_attestation rows))

  unfoldable pub list_blocks : Option ℕ → ℕ × ℕ → ℕ → ℕ → Exec World (List Block)
  list_blocks scope (from, to) limit offset = annotate (text "failed to list blocks") (
      query r (scope_encodes scope && (encodes from && encodes to))
        (λ db. map listed_block (cut limit offset (block_rows scope from to db))))

  unfoldable pub get_latest_snapshot : ℕ → Exec World ValidatorSnapshot
  get_latest_snapshot v = annotate (text "failed to get latest snapshot") (
      query r (encodes v) (λ db.
        map snapshot_of (
          cut 1 0
            (order_by later_epoch (select_rows (λ row. row.validator_index == v) db.records))))
      >>= λ rows. lift (first_row rows))

  unfoldable pub count_snapshots : ℕ → Exec World ℕ
  count_snapshots v = annotate (text "failed to count snapshots") (
      query r (encodes v) (λ db. length (select_rows (λ row. row.validator_index == v) db.records)))

  unfoldable pub list_validators : ℕ → ℕ → Exec World (List ℕ)
  list_validators limit offset =
      annotate (text "failed to list validators")
        (query r true (λ db. cut limit offset (order_by leb (distinct_validators db.records))))
