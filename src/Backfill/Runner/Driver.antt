-- ===== src/Backfill/Runner/Driver.antt =====
-- The backfill runner as the engine drives it: the hooks of runner/backfill over its own fields and
-- the database.
pub mod OneShot
pub mod Stuck
pub mod Ends
pub mod Advances
pub mod Answers
pub mod Carries
pub mod Reaches
pub mod Finishes
use pauli.Common.{ℕ, Bool, true, false, List, [], ◌∷◌, map, if◌then◌else◌}
use pauli.Common.Int.{ℤ, pos}
use pauli.Config.{poll_delay, idle_poll_delay}
use pauli.Exec.{Error, canceled, Result, ok, err, Exec}
use pauli.Storage.{World}
use pauli.Engine
use pauli.Engine.{Context}
use pauli.Backfill.{run_slot_pass, run_epoch_pass}
use pauli.Backfill.Runner.{
  Runner, Step, slot_pass, epoch_pass, after_step, step_chain, freeze_one_shot_bounds,
}

abbrev pub State : Type 0
State = Runner × World

-- An action on the database, beside the runner's fields; and one that returns the new fields.
abbrev pub beside : {A : Type 0} → Exec World A → Exec State A
beside m (r, w) = let (x, w') = m w in (x, (r, w'))

abbrev pub updating : (Runner → Exec World Runner) → Exec State (Unit {0})
updating m (r, w) = go (m r w)
  where
    go : Result Runner × World → Result (Unit {0}) × State
    go (ok r', w') = (ok tt, (r', w'))
    go (err e, w') = (err e, (r, w'))

-- Both steps run on the runner's goroutine and enqueue nothing.
abbrev pub engine_step : Step → Engine.Step State (Unit {0})
engine_step (slot_pass s) = record { async = false; run = beside (run_slot_pass s); job = λ s'. tt }
engine_step (epoch_pass s) = record {
  async = false;
  run = beside (run_epoch_pass s);
  job = λ s'. tt;
}

abbrev chain_of :
    Result (List Step × Bool) × World
    → Runner
    → Result (List (Engine.Step State (Unit {0})) × Bool) × State
chain_of (ok (steps, stop), w) r = (ok (map engine_step steps, stop), (r, w))
chain_of (err e, w) r = (err e, (r, w))

abbrev waited : Bool × State → Result (Unit {0}) × State
waited (true, s) = (err canceled, s)
waited (false, s) = (ok tt, s)

-- BeforeStep
unfoldable pub before_step : Context State → Exec State (Unit {0})
before_step ctx (r, w) =
    waited (ctx.wait (if r.idle then idle_poll_delay r.cfg else poll_delay r.cfg) (r, w))

unfoldable pub driver : Context State → Engine.Runner State (Unit {0})
driver ctx = record {
  before_step = before_step ctx;
  after_step = updating after_step;
  step_chain = λ (r, w). chain_of (step_chain r w) r;
  sleep_on_seed_error = pos 0;
  enqueue = λ j s. (ok tt, s);
  reset = λ s. s;
}

-- A context that is never done.
abbrev pub background : Context State
background = record { done = λ s. (false, s); wait = λ d s. (false, s) }

-- Start, without the loop: the runner that the loop begins with, if there is no error.
unfoldable pub start : Runner → Exec World Runner
start r w = if r.opts.one_shot then freeze_one_shot_bounds r w else (ok r, w)
