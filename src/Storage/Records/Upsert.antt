-- ===== src/Storage/Records/Upsert.antt =====
-- What an upsert leaves of a validator's row.
use pauli.Common.{
  ℕ, ◌≡◌, refl, Bool, true, false, Option, none, some, List, [], ◌∷◌, arith, if◌then◌else◌, ◌≢◌,
  map,
}
use pauli.Storage.{ValidatorEpochRecord, Db, World, Repository}
use pauli.Storage.Statements.{execute-keeps}
use pauli.Storage.Records.{
  records_encode, stamp, save_validator_epoch_records, coalesce, merge_record, is_record,
  upsert_record, upsert_records,
}

-- SELECT … WHERE validator_index = v AND epoch = e
unfoldable pub find_record : ℕ → ℕ → List ValidatorEpochRecord → Option ValidatorEpochRecord
find_record v e [] = none
find_record v e (row ∷ rows) = if is_record v e row then some row else find_record v e rows

abbrev pub merged : ValidatorEpochRecord → Option ValidatorEpochRecord → ValidatorEpochRecord
merged new none = new
merged new (some old) = merge_record new old

-- After an upsert the key has the merged row, and every other key has the row that it had.
pub find-upsert_record :
    (v e : ℕ) (new : ValidatorEpochRecord) (rows : List ValidatorEpochRecord)
    → find_record v e (upsert_record new rows) ≡ (
        if is_record v e new
        then some (merged new (find_record v e rows))
        else find_record v e rows)
unfolding find_record upsert_record
find-upsert_record v e new [] = refl
find-upsert_record v e new (row ∷ rows) = ground (arith, find-upsert_record v e new rows)

-- The rewards of a row, once stored, are there after any batch.
abbrev pub HasRewards : Option ValidatorEpochRecord → Type 0
HasRewards none = ⊥
HasRewards (some row) =
    (row.head_reward ≢ none)
    × (row.source_reward ≢ none)
    × (row.target_reward ≢ none)
    × (row.total_reward ≢ none)

coalesce-ne_none : {A : Type 0} (a b : Option A) → b ≢ none → coalesce a b ≢ none
coalesce-ne_none none b h = h
coalesce-ne_none (some a) b h = λ e. cc

merged-HasRewards :
    (new : ValidatorEpochRecord) (b : Bool) (o : Option ValidatorEpochRecord)
    → HasRewards o
    → HasRewards (if b then some (merged new o) else o)
merged-HasRewards new true (some old) h = (
  coalesce-ne_none new.head_reward old.head_reward h.0,
  coalesce-ne_none new.source_reward old.source_reward h.1,
  coalesce-ne_none new.target_reward old.target_reward h.2,
  coalesce-ne_none new.total_reward old.total_reward h.3,
)
merged-HasRewards new true none h = absurd h
merged-HasRewards new false o h = h

upsert_record-HasRewards :
    (v e : ℕ) (new : ValidatorEpochRecord) (rows : List ValidatorEpochRecord)
    → HasRewards (find_record v e rows)
    → HasRewards (find_record v e (upsert_record new rows))
upsert_record-HasRewards v e new rows h =
    rw (find-upsert_record v e new rows) (merged-HasRewards new (is_record v e new) _ h)

upsert_records-HasRewards :
    (v e : ℕ) (news rows : List ValidatorEpochRecord)
    → HasRewards (find_record v e rows)
    → HasRewards (find_record v e (upsert_records news rows))
unfolding upsert_records
upsert_records-HasRewards v e [] rows h = h
upsert_records-HasRewards v e (new ∷ news) rows h =
    upsert_records-HasRewards v e news (upsert_record new rows)
      (upsert_record-HasRewards v e new rows h)

-- The keys of the batch have a row afterwards, and so has every key that had one.
pub find-upsert_record_some :
    (v e : ℕ) (new : ValidatorEpochRecord) (rows : List ValidatorEpochRecord)
    → find_record v e rows ≢ none
    → find_record v e (upsert_record new rows) ≢ none
find-upsert_record_some v e new rows h q = ground (arith, find-upsert_record v e new rows)

pub find-upsert_records_some :
    (v e : ℕ) (news rows : List ValidatorEpochRecord)
    → find_record v e rows ≢ none
    → find_record v e (upsert_records news rows) ≢ none
unfolding upsert_records
find-upsert_records_some v e [] rows h = h
find-upsert_records_some v e (new ∷ news) rows h =
    find-upsert_records_some v e news (upsert_record new rows)
      (find-upsert_record_some v e new rows h)

-- If a validator has a row with all four rewards for an epoch, then it has such a row after a save
-- of any records, whatever becomes of the save.
pub save_validator_epoch_records-HasRewards :
    (r : Repository) (rows : List ValidatorEpochRecord) (v e : ℕ) (w : World)
    → HasRewards (find_record v e w.db.records)
    → HasRewards (find_record v e (save_validator_epoch_records r rows w).1.db.records)
unfolding save_validator_epoch_records
save_validator_epoch_records-HasRewards r [] v e w h = h
save_validator_epoch_records-HasRewards r (row ∷ rows) v e w h =
    execute-keeps r (records_encode (row ∷ rows)) _
      (λ (d : Db). HasRewards (find_record v e d.records)) w h
      (λ now. upsert_records-HasRewards v e (map (stamp now) (row ∷ rows)) w.db.records h)
