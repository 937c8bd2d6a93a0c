-- ===== src/Indexing/Blocks/SyncRewards.antt =====
-- Reading the map that blockSyncCommitteeRewardsFromBeacon builds.
pub mod Keys
use pauli.Common.{
  ℕ, ◌<◌, ◌^◌, ◌≡◌, refl, sym, ap, ◌∙◌, true, false, Option, none, some, List, [], ◌∷◌, ◌==◌,
  ==_iff, if◌then◌else◌, All, Bool-cases, inl, inr, arith, ◌≢◌,
}
use pauli.Common.Int.{ℤ}
use pauli.Text.{Text, text_eq, format_uint, parse_uint}
use pauli.Text.Laws.{text_eq→eq, text_eq_refl, keys_differ}
use pauli.Beacon.{SyncCommitteeRewardRow}
use pauli.Storage.Blocks.{reward_of}
use pauli.Indexing.Blocks.{set_reward, collect_rewards}

-- The last row of a validator, and what was known before the rows.
abbrev pub last_reward : ℕ → List SyncCommitteeRewardRow → Option ℤ → Option ℤ
last_reward v [] known = known
last_reward v (row ∷ rows) known =
    last_reward v rows (if v == row.validator_index then some row.reward else known)

reward_of-set_same :
    (k : Text) (u : ℤ) (m : List (Text × ℤ)) → reward_of k (set_reward k u m) ≡ some u
unfolding reward_of set_reward
reward_of-set_same k u [] = rw (text_eq_refl k) refl
reward_of-set_same k u ((i, x) ∷ m) = elim (Bool-cases (text_eq k i)) [
  | inl here ↦ rw here (rw (text_eq_refl k) refl)
  | inr later ↦ rw later (rw later (reward_of-set_same k u m))
]

pub reward_of-set_other :
    (k j : Text) (u : ℤ) (m : List (Text × ℤ))
    → text_eq k j ≡ false
    → reward_of k (set_reward j u m) ≡ reward_of k m
unfolding reward_of set_reward
reward_of-set_other k j u [] ne = rw ne refl
reward_of-set_other k j u ((i, x) ∷ m) ne = elim (Bool-cases (text_eq j i)) [
  | inl here ↦ rw here (rw ne (rw (← text_eq→eq j i here) (rw ne refl)))
  | inr later ↦ rw later (rw (reward_of-set_other k j u m ne) refl)
]

reward_of-step :
    (v i : ℕ) (u : ℤ) (m : List (Text × ℤ))
    → v < 2 ^ 64
    → i < 2 ^ 64
    → reward_of (format_uint v) (set_reward (format_uint i) u m)
      ≡ (if v == i then some u else reward_of (format_uint v) m)
reward_of-step v i u m hv hi = elim (Bool-cases (v == i)) [
  | inl same ↦ rw same (
      ap (λ k. reward_of (format_uint v) (set_reward (format_uint k) u m))
        (sym ((==_iff v i).0 same))
      ∙ reward_of-set_same (format_uint v) u m)
  | inr other ↦ rw other (
      reward_of-set_other (format_uint v) (format_uint i) u m
        (keys_differ v i hv hi (λ e. cc (sym ((==_iff v i).1 e) ∙ other))))
]

pub reward_of-collect_rewards :
    (v : ℕ) (rows : List SyncCommitteeRewardRow) (m : List (Text × ℤ))
    → v < 2 ^ 64
    → All (λ (row : SyncCommitteeRewardRow). row.validator_index < 2 ^ 64) rows
    → reward_of (format_uint v) (collect_rewards rows m)
      ≡ last_reward v rows (reward_of (format_uint v) m)
unfolding collect_rewards
reward_of-collect_rewards v [] m hv h = refl
reward_of-collect_rewards v (row ∷ rows) m hv h =
    reward_of-collect_rewards v rows (set_reward (format_uint row.validator_index) row.reward m) hv
      h.1
    ∙ ap (last_reward v rows) (reward_of-step v row.validator_index row.reward m hv h.0)
