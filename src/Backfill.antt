-- ===== src/Backfill.antt =====
-- steps/backfill: the slot pass and the epoch pass, one round of each track.
pub mod SlotLoop
pub mod Slots
pub mod Epochs
pub mod Below
pub mod EpochReads
pub mod Answered
pub mod EpochMarks
pub mod Returns
pub mod Runner
use pauli.Common.{
  ℕ, zero, suc, ◌+◌, ◌-◌, ◌/◌, ◌%◌, ◌^◌, Bool, true, false, Option, none, some, ltb, if◌then◌else◌,
}
use pauli.Common.Int.{pos_part}
use pauli.Exec.{Exec, pure, ◌>>=◌, ◌>>◌}
use pauli.Storage.{World, Repository}
use pauli.Storage.Progress.{
  first_unindexed_slot, first_unindexed_epoch, is_slot_indexed, is_epoch_indexed, mark_slot_indexed,
}
use pauli.Config.{BackfillConf, slots_per_epoch}
use pauli.Beacon.{Fetch, BeaconApi, ExecutionApi}
use pauli.Indexing.{fetch}
use pauli.Indexing.Blocks.{BlockIndexer, index_block_at_slot}
use pauli.Indexing.Epochs.{index_epoch_at_boundary}

-- backfill.SlotPass
pub record SlotPass : Type 0 where
  pub cfg : BackfillConf
  pub start_slot_override : Option ℕ
  pub end_slot_override : Option ℕ
  pub client : BeaconApi
  pub exec : Option ExecutionApi
  pub repo : Repository
  pub get_head : Fetch ℕ

-- head - lag, or 0.
abbrev pub behind_head : ℕ → ℕ → ℕ
behind_head head lag = if ltb lag head then head - lag else 0

-- The smaller of a bound and an override, and the larger.
abbrev pub capped : Option ℕ → ℕ → ℕ
capped none bound = bound
capped (some o) bound = if ltb o bound then o else bound

abbrev pub raised : Option ℕ → ℕ → ℕ
raised none bound = bound
raised (some o) bound = if ltb bound o then o else bound

module _ (s : SlotPass) where
  abbrev pub slot_target : ℕ → ℕ
  slot_target head = capped s.end_slot_override (behind_head head s.cfg.lag_behind_head)

  abbrev pub slot_floor : ℕ
  slot_floor = raised s.start_slot_override s.cfg.start_slot

  abbrev pub block_indexer : BlockIndexer
  block_indexer = record { client = s.client; execution = s.exec; repo = s.repo }

  -- One slot of the loop.
  unfoldable pub visit_slot : ℕ → Exec World (Unit {0})
  visit_slot slot = do
    done ← is_slot_indexed s.repo slot
    if done
        then pure tt
        else (index_block_at_slot block_indexer slot >> mark_slot_indexed s.repo slot)

  -- `for i := …; i < s.Cfg.SlotsPerPass; i++`, with the rounds left.
  unfoldable pub slot_loop : ℕ → ℕ → ℕ → ℕ → Exec World (Unit {0})
  slot_loop zero i first target = pure tt
  slot_loop (suc rounds) i first target =
      if ltb target ((first + i) % 2 ^ 64)
      then pure tt
      else (visit_slot ((first + i) % 2 ^ 64) >>= λ _. slot_loop rounds (i + 1) first target)

  abbrev slots_from : ℕ → Option ℕ → Exec World Bool
  slots_from target none = pure false
  slots_from target (some first) =
      slot_loop (pos_part s.cfg.slots_per_pass) 0 first target >> pure false

  -- SlotPass.Run
  unfoldable pub run_slot_pass : Exec World Bool
  run_slot_pass = do
    head ← fetch s.get_head
    if ltb (slot_target head) slot_floor then pure false else do
      first ← first_unindexed_slot s.repo slot_floor (slot_target head)
      slots_from (slot_target head) first

-- backfill.EpochPass
pub record EpochPass : Type 0 where
  pub cfg : BackfillConf
  pub start_epoch_override : Option ℕ
  pub end_epoch_override : Option ℕ
  pub client : BeaconApi
  pub repo : Repository

module _ (s : EpochPass) where
  -- From the finalized epoch and the head slot.
  abbrev pub epoch_target : ℕ → ℕ → ℕ
  epoch_target finalized head =
      let head_epoch = head / slots_per_epoch in
      capped s.end_epoch_override (if ltb head_epoch finalized then head_epoch else finalized)

  abbrev pub epoch_floor : ℕ
  epoch_floor = raised s.start_epoch_override s.cfg.start_epoch

  unfoldable pub visit_epoch : ℕ → Exec World (Unit {0})
  visit_epoch epoch = do
    done ← is_epoch_indexed s.repo epoch
    if done then pure tt else (do
      index_epoch_at_boundary (record { client = s.client; repo = s.repo }) epoch
      is_epoch_indexed s.repo epoch
      pure tt)

  unfoldable pub epoch_loop : ℕ → ℕ → ℕ → ℕ → Exec World (Unit {0})
  epoch_loop zero i first target = pure tt
  epoch_loop (suc rounds) i first target =
      if ltb target ((first + i) % 2 ^ 64)
      then pure tt
      else (visit_epoch ((first + i) % 2 ^ 64) >>= λ _. epoch_loop rounds (i + 1) first target)

  abbrev pub epochs_from : ℕ → Option ℕ → Exec World Bool
  epochs_from target none = pure false
  epochs_from target (some first) =
      epoch_loop (pos_part s.cfg.epochs_per_pass) 0 first target >> pure false

  -- EpochPass.Run
  unfoldable pub run_epoch_pass : Exec World Bool
  run_epoch_pass = do
    finalized ← fetch s.client.finalized_epoch
    head ← fetch s.client.get_head_slot
    if ltb (epoch_target finalized head) epoch_floor then pure false else do
      first ← first_unindexed_epoch s.repo epoch_floor (epoch_target finalized head)
      epochs_from (epoch_target finalized head) first
