-- ===== src/Api/Rewards.antt =====
-- The list handlers of a validator's path, over the repository's own queries.
use pauli.Common.{
  ℕ, ◌&&◌, ==_iff, ◌≡◌, refl, Option, none, some, List, [], ◌∷◌, ◌++◌, All, map, arith,
}
use pauli.Common.Int.{ℤ}
use pauli.Common.Orders.{order_by, cut, All-weaken, select_rows-All, All-order_by, All-cut}
use pauli.Text.{text, format_uint}
use pauli.Exec.{ok}
use pauli.Exec.Post.{IfOk, Post-weaken}
use pauli.Storage.{Block, BlockSyncCommitteeRewards, World, Repository}
use pauli.Storage.Blocks.{reward_of}
use pauli.Storage.Statements.{read-IfOk}
use pauli.Storage.Reads.{
  AttestationReward, SyncCommitteeReward, within, in_scope, listed_block, newer_block, block_rows,
  list_blocks, list_attestation_rewards,
}
use pauli.Storage.Reads.Attestations.{list_attestation_rewards-RewardPage}
use pauli.Storage.Reads.SyncCommittee.{
  row_at, rows_of, scoped_rows, later_reward, window_blocks, list_sync_committee_rewards,
  list_sync_committee_rewards_scoped,
}
use pauli.Api.{Request, parse_uint_path, parse_epoch_window, parse_slot_window, list_rewards_scoped}
use pauli.Api.Windows.{parse_epoch_window-Range, parse_slot_window-Range}
use pauli.Api.Answers.{Answers, list_rewards_scoped-Answers}

abbrev pub AttestationOf : ℕ → AttestationReward → Type 0
AttestationOf idx a = a.validator_index ≡ idx

abbrev pub BlockOf : ℕ → Block → Type 0
BlockOf idx b = b.validator_index ≡ idx

abbrev pub SyncRewardOf : ℕ → SyncCommitteeReward → Type 0
SyncRewardOf idx a = a.validator_index ≡ idx

pub All-map :
    {A B : Type 0} (P : B → Type 0) (f : A → B) (xs : List A)
    → All (λ x. P (f x)) xs
    → All P (map f xs)
All-map P f [] h = tt
All-map P f (x ∷ xs) h = (h.0, All-map P f xs h.1)

All-append : {A : Type 0} (P : A → Type 0) (xs ys : List A) → All P xs → All P ys → All P (xs ++ ys)
All-append P [] ys h k = k
All-append P (x ∷ xs) ys h k = (h.0, All-append P xs ys h.1 k)

row_at-SyncRewardOf :
    (v : ℕ) (b : Block) (rewards : BlockSyncCommitteeRewards) (o : Option ℤ)
    → All (SyncRewardOf v) (row_at v b rewards o)
row_at-SyncRewardOf v b rewards none = tt
row_at-SyncRewardOf v b rewards (some u) = (refl, tt)

rows_of-SyncRewardOf :
    (v : ℕ) (b : Block) (o : Option BlockSyncCommitteeRewards)
    → All (SyncRewardOf v) (rows_of v b o)
rows_of-SyncRewardOf v b none = tt
rows_of-SyncRewardOf v b (some rewards) =
    row_at-SyncRewardOf v b rewards (reward_of (format_uint v) rewards.rewards)

scoped_rows-SyncRewardOf : (v : ℕ) (bs : List Block) → All (SyncRewardOf v) (scoped_rows v bs)
unfolding scoped_rows
scoped_rows-SyncRewardOf v [] = tt
scoped_rows-SyncRewardOf v (b ∷ bs) =
    All-append (SyncRewardOf v) (rows_of v b b.sync_committee_rewards) _
      (rows_of-SyncRewardOf v b b.sync_committee_rewards) (scoped_rows-SyncRewardOf v bs)

module _ (r : Repository) (idx : ℕ) (bounds : ℕ × ℕ) (limit offset : ℕ) (w : World) where
  attestations-scoped :
      IfOk
        (λ rows _. All (AttestationOf idx) rows)
        (list_attestation_rewards r (some idx) bounds limit offset w)
  attestations-scoped =
      Post-weaken (list_attestation_rewards r (some idx) bounds limit offset w)
        (λ rows _ h. All-weaken (AttestationOf idx) rows (λ a k. k.2) h.1) (λ _ _. tt)
        (list_attestation_rewards-RewardPage r (some idx) bounds limit offset w)

  blocks-scoped :
      IfOk (λ rows _. All (BlockOf idx) rows) (list_blocks r (some idx) bounds limit offset w)
  unfolding list_blocks
  blocks-scoped =
      read-IfOk r _ _
        (λ db. map listed_block (cut limit offset (block_rows (some idx) bounds.0 bounds.1 db)))
        (All (BlockOf idx)) w
        (All-map (BlockOf idx) listed_block _ (
          All-cut (BlockOf idx) limit offset _ (
            All-order_by (BlockOf idx) newer_block _ (
              All-weaken (BlockOf idx) _
                (λ b h. (==_iff b.validator_index idx).0 (ground (arith, h)))
                (select_rows-All
                  (λ (row : Block).
                    within bounds.0 bounds.1 row.slot_number
                    && in_scope (some idx) row.validator_index)
                  w.db.blocks)))))

  sync-scoped :
      IfOk
        (λ rows _. All (SyncRewardOf idx) rows)
        (list_sync_committee_rewards r (some idx) bounds limit offset w)
  unfolding list_sync_committee_rewards list_sync_committee_rewards_scoped
  sync-scoped =
      read-IfOk r _ _
        (λ db.
          cut limit offset
            (order_by later_reward (scoped_rows idx (window_blocks bounds.0 bounds.1 db))))
        (All (SyncRewardOf idx)) w
        (All-cut (SyncRewardOf idx) limit offset _ (
          All-order_by (SyncRewardOf idx) later_reward _
            (scoped_rows-SyncRewardOf idx (window_blocks bounds.0 bounds.1 w.db))))

-- The three list handlers of a validator's path, over the repository's queries, answer every
-- request whose path names a validator: with an error's status, or with a page of rewards or blocks
-- of that validator only, whose limit is from 1 to 1000.
pub handlers-Answers :
    (r : Repository) (c : Request) (idx : ℕ) (w : World)
    → parse_uint_path c (text "validatorIndex") ≡ ok idx
    → Answers AttestationOf idx
        (list_rewards_scoped parse_epoch_window (list_attestation_rewards r) c w)
      × Answers BlockOf idx (list_rewards_scoped parse_slot_window (list_blocks r) c w)
      × Answers SyncRewardOf idx
          (list_rewards_scoped parse_slot_window (list_sync_committee_rewards r) c w)
handlers-Answers r c idx w named = (
  list_rewards_scoped-Answers AttestationOf parse_epoch_window parse_epoch_window-Range _
      (λ v limit offset bounds w _ _. attestations-scoped r v bounds limit offset w) c idx w named,
  list_rewards_scoped-Answers BlockOf parse_slot_window parse_slot_window-Range _
      (λ v limit offset bounds w _ _. blocks-scoped r v bounds limit offset w) c idx w named,
  list_rewards_scoped-Answers SyncRewardOf parse_slot_window parse_slot_window-Range _
      (λ v limit offset bounds w _ _. sync-scoped r v bounds limit offset w) c idx w named,
)
