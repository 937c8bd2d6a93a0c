-- ===== src/Storage/Blocks.antt =====
-- repository.go: the upsert of blocks.
pub mod Upsert
use pauli.Common.{
  ℕ, Bool, true, false, ◌&&◌, Option, none, some, List, [], ◌∷◌, ◌==◌, if◌then◌else◌,
}
use pauli.Common.Int.{ℤ}
use pauli.Text.{Text, text, text_eq}
use pauli.Exec.{Exec, pure, annotate, ◌>>=◌, ◌>>◌}
use pauli.Storage.{Block, Db, World, Repository, encodes, execute}
use pauli.Storage.Records.{coalesce}

-- The conflict target (validator_index, slot_number).
abbrev pub is_block : ℕ → ℕ → Block → Bool
is_block v s row = v == row.validator_index && s == row.slot_number

abbrev pub merge_block : Block → Block → Block
merge_block new old = record new {
  sync_committee_rewards = coalesce new.sync_committee_rewards old.sync_committee_rewards;
}

unfoldable pub upsert_block : Block → List Block → List Block
upsert_block new [] = new ∷ []
upsert_block new (row ∷ rows) =
    if is_block new.validator_index new.slot_number row
    then merge_block new row ∷ rows
    else row ∷ upsert_block new rows

-- row.Timestamp = time.Now() where it is unset.
abbrev pub stamp_block : ℕ → Block → Block
stamp_block now row = if row.timestamp == 0 then record row { timestamp = now } else row

abbrev block_number_encodes : Option ℕ → Bool
block_number_encodes none = true
block_number_encodes (some n) = encodes n

abbrev pub block_encodes : Block → Bool
block_encodes row =
    encodes row.validator_index
    && (encodes row.slot_number && (block_number_encodes row.block_number && encodes row.rewards))

-- The reward under a key of the map.
unfoldable pub reward_of : Text → List (Text × ℤ) → Option ℤ
reward_of k [] = none
reward_of k ((j, u) ∷ m) = if text_eq k j then some u else reward_of k m

module _ (r : Repository) where
  unfoldable pub save_block : Block → Exec World (Unit {0})
  save_block row = annotate (text "failed to save block") (
      execute r (block_encodes row)
        (λ now db. record db { blocks = upsert_block (stamp_block now row) db.blocks }))

  unfoldable pub save_blocks : List Block → Exec World (Unit {0})
  save_blocks [] = pure tt
  save_blocks (row ∷ rows) = save_block row >> save_blocks rows
