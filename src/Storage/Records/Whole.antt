-- ===== src/Storage/Records/Whole.antt =====
-- Records with all four rewards of their epoch, or with none of them, under upserts.
use pauli.Common.{
  ℕ, ◌≡◌, refl, ◌⊎◌, inl, inr, ◌==◌, none, some, List, [], ◌∷◌, All, map, Bool-cases,
}
use pauli.Common.Int.{ℤ}
use pauli.Storage.{ValidatorEpochRecord, Db, Repository}
use pauli.Storage.Keeps.{Keeps, Keeps-execute, Keeps-annotate, keeps_rules}
use pauli.Storage.Records.{
  merge_record, is_record, upsert_record, upsert_records, stamp, records_encode,
  save_validator_epoch_records,
}

-- The rewards of a row.
abbrev pub HasAll : ValidatorEpochRecord → Type 0
HasAll row =
    (h : ℤ) × (s : ℤ) × (t : ℤ) × (a : ℤ) × (row.head_reward ≡ some h)
    × (row.source_reward ≡ some s)
    × (row.target_reward ≡ some t)
    × (row.total_reward ≡ some a)

abbrev pub HasNone : ValidatorEpochRecord → Type 0
HasNone row =
    (row.head_reward ≡ none)
    × (row.source_reward ≡ none)
    × (row.target_reward ≡ none)
    × (row.total_reward ≡ none)

abbrev pub Whole : ValidatorEpochRecord → Type 0
Whole row = HasAll row ⊎ HasNone row

abbrev pub AllWhole : Db → Type 0
AllWhole d = All Whole d.records

merge-Whole :
    (new old : ValidatorEpochRecord) → Whole new → Whole old → Whole (merge_record new old)
merge-Whole new old (inl (h, s, t, a, eh, es, et, ea)) k =
    inl (h, s, t, a, rw eh refl, rw es refl, rw et refl, rw ea refl)
merge-Whole new old (inr (eh, es, et, ea)) k = rw (eh, es, et, ea) k

upsert_record-Whole :
    (new : ValidatorEpochRecord) (rows : List ValidatorEpochRecord)
    → Whole new
    → All Whole rows
    → All Whole (upsert_record new rows)
unfolding upsert_record
upsert_record-Whole new [] h k = (h, tt)
upsert_record-Whole new (row ∷ rows) h k =
    elim (Bool-cases (is_record new.validator_index new.epoch row)) [
      | inl here ↦ rw here (merge-Whole new row h k.0, k.1)
      | inr later ↦ rw later (k.0, upsert_record-Whole new rows h k.1)
    ]

upsert_records-Whole :
    (news rows : List ValidatorEpochRecord)
    → All Whole news
    → All Whole rows
    → All Whole (upsert_records news rows)
unfolding upsert_records
upsert_records-Whole [] rows h k = k
upsert_records-Whole (new ∷ news) rows h k =
    upsert_records-Whole news (upsert_record new rows) h.1 (upsert_record-Whole new rows h.0 k)

stamp-Whole :
    (now : ℕ) (rows : List ValidatorEpochRecord) → All Whole rows → All Whole (map (stamp now) rows)
stamp-Whole now [] h = tt
stamp-Whole now (row ∷ rows) h = elim (Bool-cases (row.indexed_at == 0)) [
  | inl unset ↦ rw unset (h.0, stamp-Whole now rows h.1)
  | inr set ↦ rw set (h.0, stamp-Whole now rows h.1)
]

module _ (r : Repository) where
  pub save-Whole :
      (rows : List ValidatorEpochRecord)
      → All Whole rows
      → Keeps AllWhole (save_validator_epoch_records r rows)
  unfolding save_validator_epoch_records
  save-Whole [] h = search keeps_rules
  save-Whole (row ∷ rows) h = Keeps-annotate _ _ (
      Keeps-execute r (records_encode (row ∷ rows)) _ (λ now d k.
        upsert_records-Whole (map (stamp now) (row ∷ rows)) d.records
          (stamp-Whole now (row ∷ rows) h) k))
