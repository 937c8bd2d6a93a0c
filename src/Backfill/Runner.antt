-- ===== src/Backfill/Runner.antt =====
-- runner/backfill: the targets of the two tracks, when the runner counts as caught up, and the
-- chain of steps of one iteration.
pub mod Complete
pub mod Driver
pub mod Frozen
pub mod Looks
use pauli.Common.{
  ℕ, ◌-◌, ◌/◌, Bool, true, false, Option, none, some, List, [], ◌∷◌, ltb, if◌then◌else◌,
}
use pauli.Exec.{Exec, pure, recover, ◌>>=◌, ◌>>◌}
use pauli.Storage.{Kind, slot, epoch, World, Repository}
use pauli.Storage.Progress.{first_unindexed}
use pauli.Config.{BackfillConf, slots_per_epoch}
use pauli.Beacon.{Fetch, BeaconApi, ExecutionApi}
use pauli.Indexing.{fetch}
use pauli.Backfill.{SlotPass, EpochPass, behind_head}

-- backfill.Options
pub record Options : Type 0 where
  pub start_slot : Option ℕ
  pub end_slot : Option ℕ
  pub start_epoch : Option ℕ
  pub end_epoch : Option ℕ
  pub one_shot : Bool

-- oneShotBounds
pub record OneShotBounds : Type 0 where
  pub end_slot : ℕ
  pub end_epoch : ℕ

-- backfill.Runner; `idle` and `one_shot_bounds` are the fields that change.
pub record Runner : Type 0 where
  pub cfg : BackfillConf
  pub opts : Options
  pub client : BeaconApi
  pub exec : Option ExecutionApi
  pub repo : Repository
  pub get_head : Fetch ℕ
  pub idle : Bool
  pub one_shot_bounds : Option OneShotBounds

-- The two steps of the chain.
pub data Step : Type 0 where
  slot_pass : SlotPass → Step
  epoch_pass : EpochPass → Step

abbrev pub given_or : Option ℕ → ℕ → ℕ
given_or none default = default
given_or (some n) default = n

module _ (r : Runner) where
  -- What is left of slotTarget and epochTarget when there is no override.
  abbrev head_target : Exec World ℕ
  head_target = fetch r.get_head >>= λ head. pure (behind_head head r.cfg.lag_behind_head)

  abbrev pub slot_target_or : Option ℕ → Exec World ℕ
  slot_target_or (some end) = pure end
  slot_target_or none = head_target

  unfoldable pub slot_target : Exec World ℕ
  slot_target = slot_target_or r.opts.end_slot

  abbrev finalized_target : Exec World ℕ
  finalized_target = do
    finalized ← fetch r.client.finalized_epoch
    head ← fetch r.client.get_head_slot
    pure (if ltb (head / slots_per_epoch) finalized then head / slots_per_epoch else finalized)

  abbrev pub epoch_target_or : Option ℕ → Exec World ℕ
  epoch_target_or (some end) = pure end
  epoch_target_or none = finalized_target

  unfoldable pub epoch_target : Exec World ℕ
  epoch_target = epoch_target_or r.opts.end_epoch

  abbrev pub floor_slot : ℕ
  floor_slot = given_or r.opts.start_slot r.cfg.start_slot

  abbrev pub floor_epoch : ℕ
  floor_epoch = given_or r.opts.start_epoch r.cfg.start_epoch

  abbrev pub answer : Option ℕ → Exec World Bool
  answer none = pure true
  answer (some p) = pure false

  -- Whether a track has nothing left from its floor to its end.
  abbrev pub track_complete : Kind → ℕ → ℕ → Exec World Bool
  track_complete k floor end =
      if ltb end floor
      then pure true
      else (first_unindexed r.repo k floor end >>= λ found. answer found)

  -- What caughtUp and oneShotComplete share: they differ in the ends.
  abbrev pub both_complete : Exec World ℕ → Exec World ℕ → Exec World Bool
  both_complete slot_end epoch_end = do
    end_slot ← slot_end
    slots ← track_complete slot floor_slot end_slot
    if slots
        then (epoch_end >>= λ end_epoch. track_complete epoch floor_epoch end_epoch)
        else pure false

  unfoldable pub caught_up : Exec World Bool
  caught_up = both_complete slot_target epoch_target

  -- A failure to get the head counts as 0.
  abbrev one_shot_end_slot_or : Option OneShotBounds → Option ℕ → Exec World ℕ
  one_shot_end_slot_or (some b) o = pure b.end_slot
  one_shot_end_slot_or none (some end) = pure end
  one_shot_end_slot_or none none =
      recover (fetch r.get_head) (λ head. pure (behind_head head r.cfg.lag_behind_head))
        (λ e. pure 0)

  abbrev pub one_shot_end_slot : Exec World ℕ
  one_shot_end_slot = one_shot_end_slot_or r.one_shot_bounds r.opts.end_slot

  abbrev one_shot_end_epoch_or : Option OneShotBounds → Option ℕ → Exec World ℕ
  one_shot_end_epoch_or (some b) o = pure b.end_epoch
  one_shot_end_epoch_or none (some end) = pure end
  one_shot_end_epoch_or none none = epoch_target

  abbrev pub one_shot_end_epoch : Exec World ℕ
  one_shot_end_epoch = one_shot_end_epoch_or r.one_shot_bounds r.opts.end_epoch

  unfoldable pub one_shot_complete : Exec World Bool
  one_shot_complete = both_complete one_shot_end_slot one_shot_end_epoch

  -- freezeOneShotBounds: the bounds that the runner keeps if no error is returned.
  unfoldable pub freeze_one_shot_bounds : Exec World Runner
  freeze_one_shot_bounds = do
    end_slot ← slot_target
    end_epoch ← epoch_target
    pure (record r {
      one_shot_bounds = some (record {
        end_slot = given_or r.opts.end_slot end_slot;
        end_epoch = given_or r.opts.end_epoch end_epoch;
      });
    })

  -- AfterStep: the runner that is left if no error is returned.
  unfoldable pub after_step : Exec World Runner
  after_step = caught_up >>= λ caught. pure (record r { idle = caught })

  abbrev pub slot_step : SlotPass
  slot_step = record {
    cfg = r.cfg;
    start_slot_override = r.opts.start_slot;
    end_slot_override = r.opts.end_slot;
    client = r.client;
    exec = r.exec;
    repo = r.repo;
    get_head = r.get_head;
  }

  abbrev pub epoch_step : EpochPass
  epoch_step = record {
    cfg = r.cfg;
    start_epoch_override = r.opts.start_epoch;
    end_epoch_override = r.opts.end_epoch;
    client = r.client;
    repo = r.repo;
  }

  abbrev pub steps : List Step
  steps = slot_pass slot_step ∷ epoch_pass epoch_step ∷ []

  -- StepChain: the steps, and whether the run ends.
  unfoldable pub step_chain : Exec World (List Step × Bool)
  step_chain =
      if r.opts.one_shot
      then (one_shot_complete >>= λ done. if done then pure ([], true) else pure (steps, false))
      else pure (steps, false)
