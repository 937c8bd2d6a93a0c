-- ===== src/Storage/Reads/SyncCommittee.antt =====
-- repository.go: the queries of the sync committee's rewards, which blocks hold as JSON.
pub mod Scopes
use pauli.Common.{
  ℕ, ◌^◌, Bool, true, ◌&&◌, ◌||◌, if◌then◌else◌, Option, none, some, List, [], ◌∷◌, ◌++◌, ltb, leb,
  ◌==◌, map,
}
use pauli.Common.Int.{ℤ}
use pauli.Common.Orders.{select_rows, order_by, cut}
use pauli.Text.{Text, text, format_uint, parse_uint}
use pauli.Exec.{plain, Result, ok, err, and_then, Exec, annotate, lift, ◌>>=◌}
use pauli.Storage.{BlockSyncCommitteeRewards, Block, Db, World, Repository, encodes, query}
use pauli.Storage.Blocks.{reward_of}
use pauli.Storage.Reads.{SyncCommitteeReward, within}

abbrev pub reward_row : Block → BlockSyncCommitteeRewards → ℕ → ℤ → SyncCommitteeReward
reward_row b rewards v reward = record {
  validator_index = v;
  slot = b.slot_number;
  reward_gwei = reward;
  execution_optimistic = rewards.execution_optimistic;
  finalized = rewards.finalized;
  timestamp = b.timestamp;
}

-- The row of a block under a key of its map, if it has one.
abbrev pub row_at : ℕ → Block → BlockSyncCommitteeRewards → Option ℤ → List SyncCommitteeReward
row_at v b rewards none = []
row_at v b rewards (some reward) = reward_row b rewards v reward ∷ []

abbrev pub rows_of : ℕ → Block → Option BlockSyncCommitteeRewards → List SyncCommitteeReward
rows_of v b none = []
rows_of v b (some rewards) = row_at v b rewards (reward_of (format_uint v) rewards.rewards)

unfoldable pub scoped_rows : ℕ → List Block → List SyncCommitteeReward
scoped_rows v [] = []
scoped_rows v (b ∷ bs) = rows_of v b b.sync_committee_rewards ++ scoped_rows v bs

-- key::bigint of a decimal key.
abbrev bigint : Option ℕ → Result ℕ
bigint none = err (plain (text "invalid input syntax for type bigint"))
bigint (some n) =
    if encodes n then ok n else err (plain (text "value is out of range for type bigint"))

-- LATERAL jsonb_each_text: a row for every entry of the map.
unfoldable pub entry_rows :
    Block → BlockSyncCommitteeRewards → List (Text × ℤ) → Result (List SyncCommitteeReward)
entry_rows b rewards [] = ok []
entry_rows b rewards ((key, reward) ∷ entries) = and_then (bigint (parse_uint key)) (λ v.
    and_then (entry_rows b rewards entries) (λ rows. ok (reward_row b rewards v reward ∷ rows)))

abbrev pub lateral : Block → Option BlockSyncCommitteeRewards → Result (List SyncCommitteeReward)
lateral b none = ok []
lateral b (some rewards) = entry_rows b rewards rewards.rewards

unfoldable pub global_rows : List Block → Result (List SyncCommitteeReward)
global_rows [] = ok []
global_rows (b ∷ bs) =
    and_then (lateral b b.sync_committee_rewards)
      (λ rows. and_then (global_rows bs) (λ others. ok (rows ++ others)))

-- ORDER BY slot_number DESC
abbrev pub later_reward : SyncCommitteeReward → SyncCommitteeReward → Bool
later_reward a b = leb b.slot a.slot

-- ORDER BY slot_number DESC, key ASC
abbrev pub newer_reward : SyncCommitteeReward → SyncCommitteeReward → Bool
newer_reward a b =
    ltb b.slot a.slot || (a.slot == b.slot && leb a.validator_index b.validator_index)

abbrev pub window_blocks : ℕ → ℕ → Db → List Block
window_blocks from to db = select_rows (λ row. within from to row.slot_number) db.blocks

module _ (r : Repository) where
  -- The validator's index is sent as a text.
  unfoldable pub list_sync_committee_rewards_scoped :
      ℕ → ℕ × ℕ → ℕ → ℕ → Exec World (List SyncCommitteeReward)
  list_sync_committee_rewards_scoped v (from, to) limit offset =
      annotate (text "failed to list sync committee rewards") (
        query r (encodes from && encodes to) (λ db.
          cut limit offset (order_by later_reward (scoped_rows v (window_blocks from to db)))))

  unfoldable pub list_sync_committee_rewards_global :
      ℕ × ℕ → ℕ → ℕ → Exec World (List SyncCommitteeReward)
  list_sync_committee_rewards_global (from, to) limit offset =
      annotate (text "failed to list sync committee rewards") (
        query r (encodes from && encodes to) (λ db. global_rows (window_blocks from to db))
        >>= λ rows.
            lift (and_then rows (λ found. ok (cut limit offset (order_by newer_reward found)))))

  unfoldable pub list_sync_committee_rewards :
      Option ℕ → ℕ × ℕ → ℕ → ℕ → Exec World (List SyncCommitteeReward)
  list_sync_committee_rewards none bounds limit offset =
      list_sync_committee_rewards_global bounds limit offset
  list_sync_committee_rewards (some v) bounds limit offset =
      list_sync_committee_rewards_scoped v bounds limit offset
