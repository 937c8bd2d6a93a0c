-- ===== src/Commands/Backfill/Ended.antt =====
-- cmd/pauli-backfill/main.go: what the end of a run means.
use pauli.Common.{◌+◌, ◌^◌, ◌<◌, ◌≡◌}
use pauli.Exec.{Result, ok}
use pauli.Exec.Post.{Post}
use pauli.Storage.{slot, epoch, Db}
use pauli.Storage.Progress.Gaps.{AllMarked}
use pauli.Config.{Config, load}
use pauli.Backfill.Runner.{Runner, OneShotBounds, given_or, floor_slot, floor_epoch}
use pauli.Backfill.Runner.Frozen.{Respects, Frozen}
use pauli.Backfill.Runner.Driver.Ends.{Ends}
use pauli.Beacon.Requests
use pauli.Commands.{Process, Setup, open_store}
use pauli.Commands.Backfill.{Flags, given, Ending, not_frozen, ended, running, runner_of}

module _ (r : Runner) (before : Db) where
  -- If the run has ended, then there are ends that respect the options, and every slot and epoch
  -- from the floors to them is marked. Without bounds the tables are as before.
  abbrev pub EndsWell : Ending → Db → Type 0
  EndsWell ended db =
      (b : OneShotBounds) × Respects r.opts.end_slot b.end_slot
      × Respects r.opts.end_epoch b.end_epoch
      × AllMarked slot db.progress (floor_slot r) (b.end_slot + 1)
      × AllMarked epoch db.progress (floor_epoch r) (b.end_epoch + 1)
  EndsWell not_frozen db = db ≡ before
  EndsWell running db = Unit

module _ {F P Pool S : Type 0} (u : Setup F P Pool S) (flags : Flags) (cfg : Config F)
    (loads : load u.nonpositive_rate u.default_rate u.parsed ≡ ok cfg)
    (low_slot : given_or (given flags.from_slot) cfg.backfill.start_slot < 2 ^ 63)
    (low_epoch : given_or (given flags.from_epoch) cfg.backfill.start_epoch < 2 ^ 63) where
  -- The tables that NewStore and RunMigrations leave.
  abbrev pub opened : Process P S → Db
  opened p = (open_store u cfg p).1.world.db

  abbrev Reached : Process P S → Ending → Process P S → Type 0
  Reached p ending p' = EndsWell (runner_of u flags cfg) (opened p) ending p'.world.db

  abbrev Outcome : Process P S → Result Ending × Process P S → Type 0
  Outcome p = Post (Reached p) (λ p'. p'.world.db ≡ opened p)
