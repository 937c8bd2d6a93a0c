-- ===== src/Storage/Reads/SyncCommittee/Scopes.antt =====
-- The rewards of one validator and of all validators, over the same blocks.
use pauli.Common.{
  ℕ, ◌<◌, ◌^◌, ◌≡◌, refl, sym, ap, ◌∙◌, Bool, ◌==◌, ==_iff, Option, none, some, List, [], ◌∷◌, ◌++◌,
  All, arith, lt→ltb, Bool-cases, inl, inr,
}
use pauli.Common.Int.{ℤ}
use pauli.Common.Orders.{select_rows}
use pauli.Text.{Text, format_uint}
use pauli.Text.Laws.{text_eq_refl, keys_differ, parse_uint-format_uint}
use pauli.Exec.{Result, ok}
use pauli.Storage.{BlockSyncCommitteeRewards, Block}
use pauli.Storage.Blocks.{reward_of}
use pauli.Storage.Reads.{SyncCommitteeReward}
use pauli.Storage.Reads.SyncCommittee.{
  reward_row, row_at, rows_of, scoped_rows, entry_rows, lateral, global_rows,
}

-- The entries of a map of rewards: one for each of some validators, under its decimal index.
abbrev pub Canonical : List (Text × ℤ) → Type 0
Canonical [] = Unit
Canonical ((key, u) ∷ m) =
    ((i : ℕ) × (key ≡ format_uint i) × (i < 2 ^ 63)) × ((reward_of key m ≡ none) × Canonical m)

abbrev pub CanonicalRewards : Option BlockSyncCommitteeRewards → Type 0
CanonicalRewards none = Unit
CanonicalRewards (some rewards) = Canonical rewards.rewards

-- The rows of one validator.
abbrev pub of_validator : ℕ → SyncCommitteeReward → Bool
of_validator v row = row.validator_index == v

select-append :
    (v : ℕ) (xs ys : List SyncCommitteeReward)
    → select_rows (of_validator v) (xs ++ ys)
      ≡ select_rows (of_validator v) xs ++ select_rows (of_validator v) ys
unfolding select_rows
select-append v [] ys = refl
select-append v (x ∷ xs) ys = elim (Bool-cases (x.validator_index == v)) [
  | inl hit ↦ rw hit (ap (◌∷◌ x) (select-append v xs ys))
  | inr miss ↦ rw miss (select-append v xs ys)
]

-- The rows of all validators can be read, and those of `v` are these.
abbrev pub Agrees : ℕ → List SyncCommitteeReward → Result (List SyncCommitteeReward) → Type 0
Agrees v mine x =
    (rows : List SyncCommitteeReward) × (x ≡ ok rows) × (select_rows (of_validator v) rows ≡ mine)

module _ (v : ℕ) (v_fits : v < 2 ^ 63) where
  entry_rows-Agrees :
      (b : Block) (rewards : BlockSyncCommitteeRewards) (m : List (Text × ℤ))
      → Canonical m
      → Agrees v (row_at v b rewards (reward_of (format_uint v) m)) (entry_rows b rewards m)
  unfolding entry_rows reward_of select_rows
  entry_rows-Agrees b rewards [] h = ([], refl, refl)
  entry_rows-Agrees b rewards ((key, u) ∷ m) ((i, printed, fits), (fresh, rest)) =
      let (rows, e, mine) = entry_rows-Agrees b rewards m rest in
      let big : i < 2 ^ 64 = omega arith in
      (
        reward_row b rewards i u ∷ rows,
        rw printed (rw (parse_uint-format_uint i big) (rw (lt→ltb i (2 ^ 63) fits) (rw e refl))),
        elim (Bool-cases (i == v)) [
          | inl same ↦ rw same (
              let same_key : format_uint v ≡ key =
                ap format_uint (sym ((==_iff i v).0 same)) ∙ sym printed in
              rw same_key (
                rw (text_eq_refl key) (
                  ap (λ j. ◌∷◌ (reward_row b rewards j u) (select_rows (of_validator v) rows))
                    ((==_iff i v).0 same)
                  ∙ ap (◌∷◌ (reward_row b rewards v u)) (
                      mine
                      ∙ ap (λ k. row_at v b rewards (reward_of k m)) same_key
                      ∙ ap (row_at v b rewards) fresh))))
          | inr other ↦ rw other (
              rw
                (
                  printed,
                  keys_differ v i (omega arith) big (λ e. cc (sym other, (==_iff i v).1 (sym e))),
                )
                mine)
        ],
      )

  lateral-Agrees :
      (b : Block) (o : Option BlockSyncCommitteeRewards)
      → CanonicalRewards o
      → Agrees v (rows_of v b o) (lateral b o)
  unfolding select_rows
  lateral-Agrees b none h = ([], refl, refl)
  lateral-Agrees b (some rewards) h = entry_rows-Agrees b rewards rewards.rewards h

  -- Where the maps of the blocks are canonical, the rows of all validators can be read, and those
  -- of a validator whose index a BIGINT holds are the rows that the query for it reads.
  pub global_rows-Agrees :
      (bs : List Block)
      → All (λ (b : Block). CanonicalRewards b.sync_committee_rewards) bs
      → Agrees v (scoped_rows v bs) (global_rows bs)
  unfolding global_rows scoped_rows select_rows
  global_rows-Agrees [] h = ([], refl, refl)
  global_rows-Agrees (b ∷ bs) h =
      let (rows, e, mine) = lateral-Agrees b b.sync_committee_rewards h.0 in
      let (others, f, theirs) = global_rows-Agrees bs h.1 in
      (rows ++ others, rw e (rw f refl), rw (select-append v rows others) (rw (mine, theirs) refl))
