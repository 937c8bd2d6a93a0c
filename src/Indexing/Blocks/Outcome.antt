-- ===== src/Indexing/Blocks/Outcome.antt =====
-- What IndexBlockAtSlot does to the tables on each of its ways out.
use pauli.Common.{ℕ, ◌≡◌, refl, true, Option, none, some, List, [], ◌∷◌}
use pauli.Text.{text, format_uint}
use pauli.Exec.{Error, ok, err}
use pauli.Exec.Post.{IfOk}
use pauli.Exec.Ensures.{Ensures, ensures_rules}
use pauli.Storage.{Block, Db, World, at}
use pauli.Storage.Keeps.{Keeps, Keeps-execute, Keeps-annotate, keeps_rules}
use pauli.Storage.Blocks.{save_block, block_encodes}
use pauli.Storage.Blocks.Upsert.{Stores, save_block-Ensures, OnlyBlocksAt, OnlyBlocksAt-save}
use pauli.Beacon.{ExecutionApi, BeaconBlockHeader, BlockRewardsData, Validator}
use pauli.Indexing.{is_not_found, rewards_state_not_yet_available, fetch}
use pauli.Indexing.Calls.{Keeps-fetch, Keeps-time_now}
use pauli.Indexing.Blocks.{
  BlockIndexer, proposer_pubkey, execution_block, fees_of, sync_rewards, save_indexed_block,
  index_header, index_block_at_slot,
}

module _ (idx : BlockIndexer) (slot : ℕ) (d : Db) where
  ruleset call_rules = (keeps_rules, Keeps-fetch, Keeps-time_now)

  save_block-Keeps :
      (new : Block) → new.slot_number ≡ slot → Keeps (OnlyBlocksAt slot d) (save_block idx.repo new)
  unfolding save_block
  save_block-Keeps new e = Keeps-annotate (text "failed to save block") _ (
      Keeps-execute idx.repo (block_encodes new) _
        (λ now e' h. rw (← e) (OnlyBlocksAt-save new now d e' (rw e h))))

  pubkey-Keeps :
      (p : ℕ) (vs : List Validator) → Keeps (OnlyBlocksAt slot d) (proposer_pubkey idx slot p vs)
  pubkey-Keeps p [] = search keeps_rules
  pubkey-Keeps p (v ∷ vs) = search keeps_rules

  fees-Keeps :
      (x : Option ExecutionApi) (n : Option ℕ) → Keeps (OnlyBlocksAt slot d) (fees_of idx slot x n)
  fees-Keeps none n = search keeps_rules
  fees-Keeps (some c) none = search keeps_rules
  fees-Keeps (some c) (some n) = search call_rules

  block-Keeps : Keeps (OnlyBlocksAt slot d) (execution_block idx slot)
  block-Keeps = search call_rules

  sync-Keeps : Keeps (OnlyBlocksAt slot d) (sync_rewards idx slot)
  sync-Keeps = search call_rules

  save_indexed_block-Keeps :
      (p : ℕ) (rewards : BlockRewardsData)
      → Keeps (OnlyBlocksAt slot d) (save_indexed_block idx slot p rewards)
  unfolding save_indexed_block
  save_indexed_block-Keeps p rewards =
      search (call_rules, save_block-Keeps, pubkey-Keeps, fees-Keeps, block-Keeps, sync-Keeps) depth
        12

  index_header-Keeps :
      (header : BeaconBlockHeader) → Keeps (OnlyBlocksAt slot d) (index_header idx slot header)
  unfolding index_header
  index_header-Keeps header = search (call_rules, save_indexed_block-Keeps) depth 8

  index_block-Keeps : Keeps (OnlyBlocksAt slot d) (index_block_at_slot idx slot)
  unfolding index_block_at_slot
  index_block-Keeps = search (call_rules, index_header-Keeps) depth 8

-- Indexing a slot changes no table but blocks, and there no row of another slot, whether it
-- returns or fails.
pub index_block-OnlyBlocksAt :
    (idx : BlockIndexer) (slot : ℕ) (w : World)
    → OnlyBlocksAt slot w.db (index_block_at_slot idx slot w).1.db
index_block-OnlyBlocksAt idx slot w =
    (index_block-Keeps idx slot w.db).stays w
      (record { same_progress = refl; same_records = refl; same_blocks = λ v s ne. refl })

module _ (idx : BlockIndexer) (slot : ℕ) where
  -- Past the rewards, a call that ends without an error has stored the proposer's row.
  save_indexed_block-Stores :
      (p : ℕ) (rewards : BlockRewardsData)
      → Ensures
          (λ _ w'. Stores p slot rewards.total w'.db.blocks)
          (save_indexed_block idx slot p rewards)
  unfolding save_indexed_block
  save_indexed_block-Stores p rewards = search (ensures_rules, save_block-Ensures) depth 12

  -- If the header and the rewards are fetched and no error is returned, then the row of the slot's
  -- proposer is stored, with the total of the fetched rewards.
  pub index_block-Stores :
      (w : World) (header : BeaconBlockHeader) (rewards : BlockRewardsData) (m n : ℕ)
      → idx.client.get_block_header (format_uint slot) w.calls ≡ (ok header, m)
      → idx.client.get_block_rewards (format_uint slot) m ≡ (ok rewards, n)
      → IfOk
          (λ _ w'. Stores header.proposer_index slot rewards.total w'.db.blocks)
          (index_block_at_slot idx slot w)
  unfolding index_block_at_slot index_header fetch
  index_block-Stores w header rewards m n h r =
      rw (h, r) ((save_indexed_block-Stores header.proposer_index rewards).holds (at n w.db))

  -- A slot whose header answers 404 is empty: no error, and no table changes.
  pub index_block-empty :
      (w : World) (e : Error) (m : ℕ)
      → idx.client.get_block_header (format_uint slot) w.calls ≡ (err e, m)
      → is_not_found e ≡ true
      → index_block_at_slot idx slot w ≡ (ok tt, at m w.db)
  unfolding index_block_at_slot fetch
  index_block-empty w e m h nf = rw (h, nf)

  -- If the header is there and the rewards are judged not available yet, the call returns no error
  -- and stores nothing.
  pub index_block-unavailable :
      (w : World) (header : BeaconBlockHeader) (e : Error) (m n : ℕ)
      → idx.client.get_block_header (format_uint slot) w.calls ≡ (ok header, m)
      → idx.client.get_block_rewards (format_uint slot) m ≡ (err e, n)
      → rewards_state_not_yet_available e ≡ true
      → index_block_at_slot idx slot w ≡ (ok tt, at n w.db)
  unfolding index_block_at_slot index_header fetch
  index_block-unavailable w header e m n h r y = rw (h, r, y)
