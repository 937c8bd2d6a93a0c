-- ===== src/Storage/Records.antt =====
-- repository.go: the upsert of validator epoch records.
pub mod Upsert
pub mod Whole
use pauli.Common.{
  ℕ, Bool, true, ◌&&◌, Option, none, some, List, [], ◌∷◌, ◌==◌, if◌then◌else◌, length, map,
}
use pauli.Common.Int.{ℤ}
use pauli.Text.{Text, text}
use pauli.Exec.{Exec, pure, annotate}
use pauli.Storage.{ValidatorEpochRecord, Db, World, Repository, encodes, execute}

-- COALESCE(new, old)
abbrev pub coalesce : {A : Type 0} → Option A → Option A → Option A
coalesce (some a) old = some a
coalesce none old = old

-- The row that ON CONFLICT … DO UPDATE SET leaves.
abbrev pub merge_record : ValidatorEpochRecord → ValidatorEpochRecord → ValidatorEpochRecord
merge_record new old = record new {
  head_reward = coalesce new.head_reward old.head_reward;
  source_reward = coalesce new.source_reward old.source_reward;
  target_reward = coalesce new.target_reward old.target_reward;
  total_reward = coalesce new.total_reward old.total_reward;
}

-- The conflict target (validator_index, epoch).
abbrev pub is_record : ℕ → ℕ → ValidatorEpochRecord → Bool
is_record v e row = v == row.validator_index && e == row.epoch

unfoldable pub upsert_record :
    ValidatorEpochRecord → List ValidatorEpochRecord → List ValidatorEpochRecord
upsert_record new [] = new ∷ []
upsert_record new (row ∷ rows) =
    if is_record new.validator_index new.epoch row
    then merge_record new row ∷ rows
    else row ∷ upsert_record new rows

unfoldable pub upsert_records :
    List ValidatorEpochRecord → List ValidatorEpochRecord → List ValidatorEpochRecord
upsert_records [] rows = rows
upsert_records (new ∷ news) rows = upsert_records news (upsert_record new rows)

-- rec.IndexedAt = now where it is unset.
abbrev pub stamp : ℕ → ValidatorEpochRecord → ValidatorEpochRecord
stamp now row = if row.indexed_at == 0 then record row { indexed_at = now } else row

-- The arguments of one queued statement fit their columns.
abbrev pub record_encodes : ValidatorEpochRecord → Bool
record_encodes row =
    encodes row.validator_index
    && (encodes row.epoch
        && (encodes row.epoch_start_slot && (encodes row.balance && encodes row.effective_balance)))

unfoldable pub records_encode : List ValidatorEpochRecord → Bool
records_encode [] = true
records_encode (row ∷ rows) = record_encodes row && records_encode rows

-- The batch is one implicit transaction: all of its statements take effect, or none.
unfoldable pub save_validator_epoch_records :
    Repository → List ValidatorEpochRecord → Exec World (Unit {0})
save_validator_epoch_records r [] = pure tt
save_validator_epoch_records r (row ∷ rows) =
    annotate (text "failed to save validator epoch records batch") (
      execute r (records_encode (row ∷ rows)) (λ now db. record db {
        records = upsert_records (map (stamp now) (row ∷ rows)) db.records;
      }))
