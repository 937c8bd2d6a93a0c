-- ===== src/Indexing/Epochs/Batches.antt =====
-- saveValidatorEpochRecordsBatched: which rows the batches leave.
use pauli.Common.{
  ℕ, zero, suc, ◌≤◌, ◌≢◌, Bool, true, false, ◌==◌, none, List, [], ◌∷◌, ◌++◌, if◌then◌else◌, arith,
  take, drop, length, take-append-drop, length-drop, All, map, subst,
}
use pauli.Exec.Post.{Post-annotate, Post-bind, Post-weaken, IfOk}
use pauli.Storage.{ValidatorEpochRecord, Db, World, Repository, execute}
use pauli.Storage.Keeps.{Keeps, Keeps-execute, Keeps-annotate, keeps_rules}
use pauli.Storage.Statements.{execute-Post}
use pauli.Storage.Records.{
  save_validator_epoch_records, records_encode, upsert_records, upsert_record, stamp,
}
use pauli.Storage.Records.Upsert.{find_record, find-upsert_record, find-upsert_records_some}
use pauli.Indexing.Epochs.{
  save_batches, save_validator_epoch_records_batched, validator_epoch_record_batch_size,
}

-- The table has a row for the validator and the epoch.
abbrev pub HasRow : ℕ → ℕ → List ValidatorEpochRecord → Type 0
HasRow v e rows = find_record v e rows ≢ none

-- The table has a row for the key of each of these.
abbrev pub Covers : List ValidatorEpochRecord → List ValidatorEpochRecord → Type 0
Covers rows news =
    All (λ (new : ValidatorEpochRecord). HasRow new.validator_index new.epoch rows) news

upsert_record-HasRow :
    (new : ValidatorEpochRecord) (rows : List ValidatorEpochRecord)
    → HasRow new.validator_index new.epoch (upsert_record new rows)
upsert_record-HasRow new rows h =
    ground (arith, find-upsert_record new.validator_index new.epoch new rows)

upsert_records-Covers :
    (news rows : List ValidatorEpochRecord) → Covers (upsert_records news rows) news
unfolding upsert_records
upsert_records-Covers [] rows = tt
upsert_records-Covers (new ∷ news) rows = (
  find-upsert_records_some new.validator_index new.epoch news (upsert_record new rows)
      (upsert_record-HasRow new rows),
  upsert_records-Covers news (upsert_record new rows),
)

stamp-HasRow :
    (now : ℕ) (new : ValidatorEpochRecord) (rows : List ValidatorEpochRecord)
    → HasRow (stamp now new).validator_index (stamp now new).epoch rows
    → HasRow new.validator_index new.epoch rows
stamp-HasRow now new rows = go (new.indexed_at == 0)
  where
    go :
        (b : Bool)
        → (let s = (if b then record new { indexed_at = now } else new) in
            HasRow s.validator_index s.epoch rows)
        → HasRow new.validator_index new.epoch rows
    go true h = h
    go false h = h

stamp-Covers :
    (now : ℕ) (news rows : List ValidatorEpochRecord)
    → Covers rows (map (stamp now) news)
    → Covers rows news
stamp-Covers now [] rows h = tt
stamp-Covers now (new ∷ news) rows h =
    (stamp-HasRow now new rows h.0, stamp-Covers now news rows h.1)

Covers-mono :
    (news rows rows' : List ValidatorEpochRecord)
    → ((v e : ℕ) → HasRow v e rows → HasRow v e rows')
    → Covers rows news
    → Covers rows' news
Covers-mono [] rows rows' f h = tt
Covers-mono (new ∷ news) rows rows' f h =
    (f new.validator_index new.epoch h.0, Covers-mono news rows rows' f h.1)

Covers-append :
    (front back rows : List ValidatorEpochRecord)
    → Covers rows front
    → Covers rows back
    → Covers rows (front ++ back)
Covers-append [] back rows f b = b
Covers-append (new ∷ front) back rows f b = (f.0, Covers-append front back rows f.1 b)

-- What a save of these rows leaves: their keys have rows, and no key has lost its row.
abbrev pub Saved : List ValidatorEpochRecord → World → Unit {0} → World → Type 0
Saved news w _ w' =
    Covers w'.db.records news × ((v e : ℕ) → HasRow v e w.db.records → HasRow v e w'.db.records)

module _ (r : Repository) where
  save-Saved :
      (news : List ValidatorEpochRecord) (w : World)
      → IfOk (Saved news w) (save_validator_epoch_records r news w)
  unfolding save_validator_epoch_records
  save-Saved [] w = (tt, λ v e h. h)
  save-Saved (new ∷ news) w =
      Post-annotate (Saved (new ∷ news) w) (λ _. Unit {0}) _
        (execute r (records_encode (new ∷ news)) _) w
        (execute-Post r (records_encode (new ∷ news)) _ (Saved (new ∷ news) w) (λ _. Unit {0}) w
          (λ n now. (
            stamp-Covers now (new ∷ news) _
                (upsert_records-Covers (map (stamp now) (new ∷ news)) w.db.records),
            λ v e. find-upsert_records_some v e (map (stamp now) (new ∷ news)) w.db.records,
          ))
          (λ n. tt) (λ n now. tt))

  save_batches-Saved :
      (fuel : ℕ) (news : List ValidatorEpochRecord) (w : World)
      → length news ≤ fuel
      → IfOk (Saved news w) (save_batches r fuel news w)
  unfolding save_batches
  save_batches-Saved fuel [] w enough = (tt, λ v e h. h)
  save_batches-Saved zero (new ∷ news) w enough = absurd (omega arith)
  save_batches-Saved (suc fuel) (new ∷ news) w enough =
      Post-bind (Saved (take validator_epoch_record_batch_size (new ∷ news)) w)
        (Saved (new ∷ news) w) (λ _. Unit {0})
        (save_validator_epoch_records r (take validator_epoch_record_batch_size (new ∷ news)))
        (λ _. save_batches r fuel (drop validator_epoch_record_batch_size (new ∷ news))) w
        (save-Saved (take validator_epoch_record_batch_size (new ∷ news)) w)
        λ _ w' front.
          Post-weaken {R = Saved (new ∷ news) w} {F = λ _. Unit {0}}
            (save_batches r fuel (drop validator_epoch_record_batch_size (new ∷ news)) w')
            (λ _ w'' back. (
              subst (Covers w''.db.records)
                  (take-append-drop validator_epoch_record_batch_size (new ∷ news))
                  (Covers-append (take validator_epoch_record_batch_size (new ∷ news)) _
                    w''.db.records
                    (Covers-mono (take validator_epoch_record_batch_size (new ∷ news)) _
                      w''.db.records back.1 front.0)
                    back.0),
              λ v e h. back.1 v e (front.1 v e h),
            ))
            (λ _ _. tt)
            (save_batches-Saved fuel (drop validator_epoch_record_batch_size (new ∷ news)) w'
              (omega (arith, length-drop validator_epoch_record_batch_size (new ∷ news))))

  -- If the batched save returns no error, then every record's key has a row, and no key has lost
  -- its row.
  pub batched-Saved :
      (news : List ValidatorEpochRecord) (w : World)
      → IfOk (Saved news w) (save_validator_epoch_records_batched r news w)
  unfolding save_validator_epoch_records_batched
  batched-Saved news w = save_batches-Saved (length news) news w (omega arith)

-- Saving records keeps what does not depend on them.
module _ (P : Db → Type 0)
    (free : (d : Db) (rows : List ValidatorEpochRecord) → P d → P (record d { records = rows }))
    (r : Repository) where
  save_records-Keeps :
      (news : List ValidatorEpochRecord) → Keeps P (save_validator_epoch_records r news)
  unfolding save_validator_epoch_records
  save_records-Keeps [] = search keeps_rules
  save_records-Keeps (new ∷ news) =
      Keeps-annotate _ _ (Keeps-execute r (records_encode (new ∷ news)) _ (λ now d h. free d _ h))

  save_batches-Keeps :
      (fuel : ℕ) (news : List ValidatorEpochRecord) → Keeps P (save_batches r fuel news)
  unfolding save_batches
  save_batches-Keeps fuel [] = search keeps_rules
  save_batches-Keeps zero (new ∷ news) = search keeps_rules
  save_batches-Keeps (suc fuel) (new ∷ news) =
      search (keeps_rules, save_records-Keeps, save_batches-Keeps fuel)

  pub batched-Keeps :
      (news : List ValidatorEpochRecord) → Keeps P (save_validator_epoch_records_batched r news)
  unfolding save_validator_epoch_records_batched
  batched-Keeps news = save_batches-Keeps (length news) news
