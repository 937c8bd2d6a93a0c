-- ===== src/Indexing/Blocks/SyncRewards/Keys.antt =====
-- The keys of the map that blockSyncCommitteeRewardsFromBeacon builds.
use pauli.Common.{
  ℕ, ◌<◌, ◌^◌, ◌≡◌, refl, sym, ◌∙◌, false, Option, none, some, List, [], ◌∷◌, All, Bool-cases, inl,
  inr, ap, arith,
}
use pauli.Common.Int.{ℤ}
use pauli.Common.Orders.{All-weaken}
use pauli.Storage.{BlockSyncCommitteeRewards}
use pauli.Text.{Text, text_eq, format_uint}
use pauli.Text.Laws.{text_eq→eq, text_eq_refl}
use pauli.Storage.Blocks.{reward_of}
use pauli.Storage.Reads.SyncCommittee.Scopes.{Canonical, CanonicalRewards}
use pauli.Beacon.{SyncCommitteeRewardRow, SyncCommitteeRewardsResult}
use pauli.Indexing.Blocks.{set_reward, collect_rewards, block_sync_committee_rewards_from_beacon}
use pauli.Indexing.Blocks.SyncRewards.{reward_of-set_other, reward_of-collect_rewards, last_reward}

-- Every validator's index fits a BIGINT.
abbrev pub SmallIndices : Option SyncCommitteeRewardsResult → Type 0
SmallIndices none = Unit
SmallIndices (some result) =
    All (λ (row : SyncCommitteeRewardRow). row.validator_index < 2 ^ 63) result.rows

set_reward-Canonical :
    (i : ℕ) (u : ℤ) (m : List (Text × ℤ))
    → i < 2 ^ 63
    → Canonical m
    → Canonical (set_reward (format_uint i) u m)
unfolding set_reward reward_of
set_reward-Canonical i u [] small h = ((i, refl, small), (refl, tt))
set_reward-Canonical i u ((key, x) ∷ m) small (k, (fresh, rest)) =
    elim (Bool-cases (text_eq (format_uint i) key)) [
      | inl here ↦
          rw here ((i, refl, small), (ap (λ t. reward_of t m) (text_eq→eq _ _ here) ∙ fresh, rest))
      | inr later ↦ rw later (
        k,
        (
          reward_of-set_other key (format_uint i) u m (other later) ∙ fresh,
          set_reward-Canonical i u m small rest,
        ),
      )
    ]
  where
    other : text_eq (format_uint i) key ≡ false → text_eq key (format_uint i) ≡ false
    other ne = elim (Bool-cases (text_eq key (format_uint i))) [
      | inl same ↦
          let e = text_eq→eq key (format_uint i) same in
          absurd (cc (sym ne, ap (λ t. text_eq (format_uint i) t) e, text_eq_refl (format_uint i)))
      | inr differ ↦ differ
    ]

collect_rewards-Canonical :
    (rows : List SyncCommitteeRewardRow) (m : List (Text × ℤ))
    → All (λ (row : SyncCommitteeRewardRow). row.validator_index < 2 ^ 63) rows
    → Canonical m
    → Canonical (collect_rewards rows m)
unfolding collect_rewards
collect_rewards-Canonical [] m small h = h
collect_rewards-Canonical (row ∷ rows) m small h =
    collect_rewards-Canonical rows (set_reward (format_uint row.validator_index) row.reward m)
      small.1 (set_reward-Canonical row.validator_index row.reward m small.0 h)

rewards_from_beacon-CanonicalRewards :
    (o : Option SyncCommitteeRewardsResult)
    → SmallIndices o
    → CanonicalRewards (block_sync_committee_rewards_from_beacon o)
unfolding block_sync_committee_rewards_from_beacon
rewards_from_beacon-CanonicalRewards none h = tt
rewards_from_beacon-CanonicalRewards (some result) h = collect_rewards-Canonical result.rows [] h tt

-- What is stored for an answer: its two flags, and a map that has for the validator `v` the reward of
-- its last row, and no entry if it has no row.
abbrev pub Stored :
    ℕ → Option SyncCommitteeRewardsResult → Option BlockSyncCommitteeRewards → Type 0
Stored v none none = Unit
Stored v (some result) (some rewards) =
    (rewards.execution_optimistic ≡ result.execution_optimistic)
    × (rewards.finalized ≡ result.finalized)
    × (reward_of (format_uint v) rewards.rewards ≡ last_reward v result.rows none)
Stored v none (some rewards) = ⊥
Stored v (some result) none = ⊥

-- If the indices of a node's answer fit a BIGINT, then the map that is stored has distinct keys, each
-- the decimal text of a number below 2^63; and for each validator it has the reward of the validator's
-- last row, or no entry if the answer has no row for it. The answer's flags are stored as they are,
-- and nothing is stored without an answer.
pub rewards_from_beacon-Stored :
    (o : Option SyncCommitteeRewardsResult) (v : ℕ)
    → SmallIndices o
    → v < 2 ^ 64
    → CanonicalRewards (block_sync_committee_rewards_from_beacon o)
      × Stored v o (block_sync_committee_rewards_from_beacon o)
unfolding block_sync_committee_rewards_from_beacon reward_of
rewards_from_beacon-Stored none v h small = (tt, tt)
rewards_from_beacon-Stored (some result) v h small = (
  rewards_from_beacon-CanonicalRewards (some result) h,
  (
    refl,
    refl,
    reward_of-collect_rewards v result.rows [] small
        (All-weaken _ result.rows (λ row q. omega (arith, q)) h),
  ),
)
