-- ===== src/Storage/Blocks/Upsert.antt =====
-- What saving a block leaves at its key, and at every other.
use pauli.Common.{ℕ, ◌≡◌, refl, ◌≢◌, Option, none, some, List, [], ◌∷◌, arith, if◌then◌else◌}
use pauli.Exec.Ensures.{Ensures, Ensures-annotate}
use pauli.Storage.{Block, Db, Repository, execute}
use pauli.Storage.Statements.{execute-Post}
use pauli.Storage.Blocks.{
  is_block, merge_block, stamp_block, upsert_block, block_encodes, save_block,
}

-- SELECT … WHERE validator_index = v AND slot_number = s
unfoldable pub find_block : ℕ → ℕ → List Block → Option Block
find_block v s [] = none
find_block v s (row ∷ rows) = if is_block v s row then some row else find_block v s rows

abbrev pub merged_block : Block → Option Block → Block
merged_block new none = new
merged_block new (some old) = merge_block new old

pub find-upsert_block :
    (v s : ℕ) (new : Block) (rows : List Block)
    → find_block v s (upsert_block new rows) ≡ (
        if is_block v s new
        then some (merged_block new (find_block v s rows))
        else find_block v s rows)
unfolding find_block upsert_block
find-upsert_block v s new [] = refl
find-upsert_block v s new (row ∷ rows) = ground (arith, find-upsert_block v s new rows)

-- The row of the key is there, with the proposer's total.
abbrev pub Stores : ℕ → ℕ → ℕ → List Block → Type 0
Stores v s total rows = (row : Block) × (find_block v s rows ≡ some row) × (row.rewards ≡ total)

upsert_block-Stores :
    (now : ℕ) (new : Block) (rows : List Block)
    → Stores new.validator_index new.slot_number new.rewards
        (upsert_block (stamp_block now new) rows)
upsert_block-Stores now new rows = (
  merged_block (stamp_block now new) (find_block new.validator_index new.slot_number rows),
  ground (arith, find-upsert_block new.validator_index new.slot_number (stamp_block now new) rows),
  ground arith,
)

-- A block that is saved without an error can be read back with its total.
pub save_block-Ensures :
    (r : Repository) (new : Block)
    → Ensures
        (λ _ w. Stores new.validator_index new.slot_number new.rewards w.db.blocks)
        (save_block r new)
unfolding save_block
save_block-Ensures r new = Ensures-annotate _ (execute r (block_encodes new) _) (record {
  holds = λ w.
      execute-Post r (block_encodes new) _ _ _ w (λ n now. upsert_block-Stores now new w.db.blocks)
        (λ n. tt) (λ n now. tt);
})

upsert_block-other :
    (v s now : ℕ) (new : Block) (rows : List Block)
    → s ≢ new.slot_number
    → find_block v s (upsert_block (stamp_block now new) rows) ≡ find_block v s rows
upsert_block-other v s now new rows ne =
    ground (arith, find-upsert_block v s (stamp_block now new) rows)

-- What the indexing of a slot may change: rows of blocks at that slot.
pub record OnlyBlocksAt (slot : ℕ) (d d' : Db) : Type 0 where
  pub same_progress : d'.progress ≡ d.progress
  pub same_records : d'.records ≡ d.records
  pub same_blocks : (v s : ℕ) → s ≢ slot → find_block v s d'.blocks ≡ find_block v s d.blocks

pub OnlyBlocksAt-save :
    (new : Block) (now : ℕ) (d e : Db)
    → OnlyBlocksAt new.slot_number d e
    → OnlyBlocksAt new.slot_number d
        (record e { blocks = upsert_block (stamp_block now new) e.blocks })
OnlyBlocksAt-save new now d e h = record {
  same_progress = h.same_progress;
  same_records = h.same_records;
  same_blocks = λ v s ne. rw (upsert_block-other v s now new e.blocks ne) (h.same_blocks v s ne);
}
