-- ===== src/Storage.antt =====
-- The database of internal/storage: the rows of models.go, the tables that the migrations create,
-- and one statement sent to the server. The child modules are the methods of the repository.
pub mod Progress
pub mod Records
pub mod Blocks
pub mod Reads
pub mod Statements
pub mod Keeps
pub mod Connection
use pauli.Common.{ℕ, ◌+◌, ◌^◌, Bool, Option, List, ltb, if◌then◌else◌}
use pauli.Common.Int.{ℤ}
use pauli.Text.{Text, text}
use pauli.Exec.{Error, plain, Result, ok, err, Exec}

-- storage.ValidatorEpochRecord, a row of validator_epoch_records. Times are instants, 0 unset.
pub record ValidatorEpochRecord : Type 0 where
  pub validator_index : ℕ
  pub epoch : ℕ
  pub epoch_start_slot : ℕ
  pub status : Text
  pub balance : ℕ
  pub effective_balance : ℕ
  pub head_reward : Option ℤ
  pub source_reward : Option ℤ
  pub target_reward : Option ℤ
  pub total_reward : Option ℤ
  pub indexed_at : ℕ

-- storage.BlockSyncCommitteeRewards; the map is keyed by decimal texts.
pub record BlockSyncCommitteeRewards : Type 0 where
  pub execution_optimistic : Bool
  pub finalized : Bool
  pub rewards : List (Text × ℤ)

-- storage.Block, a row of blocks.
pub record Block : Type 0 where
  pub validator_index : ℕ
  pub validator_pubkey : Text
  pub slot_number : ℕ
  pub block_number : Option ℕ
  pub rewards : ℕ
  pub execution_priority_fees_wei : Option Text
  pub execution_mev_fees_wei : Option Text
  pub sync_committee_rewards : Option BlockSyncCommitteeRewards
  pub timestamp : ℕ

-- indexer_progress.kind: storage.ProgressKindSlot and storage.ProgressKindEpoch.
pub data Kind : Type 0 where
  slot epoch : Kind

-- A row of indexer_progress.
pub record ProgressRow : Type 0 where
  pub kind : Kind
  pub position : ℕ
  pub completed_at : ℕ

-- The tables.
pub record Db : Type 0 where
  pub progress : List ProgressRow
  pub records : List ValidatorEpochRecord
  pub blocks : List Block

-- The tables, and the number of exchanges with an outside system so far: what such a system
-- answers is a function of that number, so it may differ from call to call.
pub record World : Type 0 where
  pub calls : ℕ
  pub db : Db

abbrev pub at : ℕ → Db → World
at n d = record { calls = n; db = d }

-- What becomes of a statement: it runs and is answered, it does not run, or it runs and the
-- answer is lost.
pub data Fate : Type 0 where
  answered refused reply_lost : Fate

-- postgres.Repository: the connection, as the fate of each statement, and the server's clock.
pub record Repository : Type 0 where
  pub fate : ℕ → Fate
  pub clock : ℕ → ℕ

abbrev next : World → World
next w = record w { calls = w.calls + 1 }

-- The driver refuses to send a uint64 that no BIGINT holds.
abbrev pub encodes : ℕ → Bool
encodes n = ltb n (2 ^ 63)

abbrev unencodable : Error
unencodable = plain (text "unable to encode argument")

abbrev connection_lost : Error
connection_lost = plain (text "connection lost")

-- Pool.Exec of a statement that changes the tables; `change` is given NOW().
unfoldable pub execute : Repository → Bool → (ℕ → Db → Db) → Exec World (Unit {0})
execute r fits change w =
    if fits
    then elim (r.fate w.calls) [
      | answered ↦ (ok tt, record (next w) { db = change (r.clock w.calls) w.db })
      | refused ↦ (err connection_lost, next w)
      | reply_lost ↦ (err connection_lost, record (next w) { db = change (r.clock w.calls) w.db })
    ]
    else (err unencodable, w)

-- Pool.QueryRow or Pool.Query with the scan of what it returns.
unfoldable pub query : {A : Type 0} → Repository → Bool → (Db → A) → Exec World A
query r fits read w =
    if fits
    then elim (r.fate w.calls) [
      | answered ↦ (ok (read w.db), next w)
      | _ ↦ (err connection_lost, next w)
    ]
    else (err unencodable, w)
