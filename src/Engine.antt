-- ===== src/Engine.antt =====
-- internal/monitor/runner: the loop that every runner is driven by, over the runner's state.
pub mod Chain
use pauli.Common.{
  ℕ, zero, suc, Bool, true, false, not, ◌&&◌, ◌||◌, List, [], ◌∷◌, ltb, if◌then◌else◌,
}
use pauli.Common.Int.{ℤ, pos, negsuc}
use pauli.Config.{nonpositive}
use pauli.Exec.{Error, Result, ok, err, Exec, pure}

-- steps.Step on the runner's goroutine: what it shares with the others is part of the state, and
-- `job` is steps.Job of the step with a clone of the environment.
pub record Step (S J : Type 0) : Type 0 where
  pub async : Bool
  pub run : Exec S Bool
  pub job : S → J

-- context.Context: whether it is done, and a wait that tells whether it is done afterwards.
pub record Context (S : Type 0) : Type 0 where
  pub done : S → Bool × S
  pub wait : ℤ → S → Bool × S

-- runner.Runner; `reset` is Env().Reset.
pub record Runner (S J : Type 0) : Type 0 where
  pub before_step : Exec S (Unit {0})
  pub after_step : Exec S (Unit {0})
  pub step_chain : Exec S (List (Step S J) × Bool)
  pub sleep_on_seed_error : ℤ
  pub enqueue : J → Exec S (Unit {0})
  pub reset : S → S

-- Whether the loop goes on.
pub data Verdict : Type 0 where
  again exit : Verdict

module _ {S : Type 0} (ctx : Context S) where
  unfoldable pub pause_or_exit : ℤ → S → Bool × S
  pause_or_exit d s = if nonpositive d then ctx.done s else ctx.wait d s

  -- `errDelay > 0 && pauseOrExit(ctx, errDelay)`
  abbrev pub pause_after_error : ℤ → S → Bool × S
  pause_after_error d s = if nonpositive d then (false, s) else pause_or_exit d s

  abbrev pub exit_if_done : Bool × S → Verdict × S
  exit_if_done (true, s) = (exit, s)
  exit_if_done (false, s) = (again, s)

module _ {S J : Type 0} (ctx : Context S) (r : Runner S J) where
  -- After Enqueue.
  abbrev enqueue_failed : ℤ → Bool × S → Bool × S
  enqueue_failed d (true, s) = (true, s)
  enqueue_failed d (false, s) = pause_after_error ctx d s

  -- runStepChain: whether the run ends.
  abbrev pub queue_then : Step S J → (S → Bool × S) → ℤ → Bool → S → Bool × S
  queue_then step rest d false s = rest s
  queue_then step rest d true s = go (r.enqueue (step.job s) s)
    where
      go : Result (Unit {0}) × S → Bool × S
      go (ok u, s') = rest s'
      go (err e, s') = enqueue_failed d (ctx.done s')

  abbrev pub after_run : Step S J → (S → Bool × S) → ℤ → Result Bool × S → Bool × S
  after_run step rest d (err e, s) = pause_after_error ctx d s
  after_run step rest d (ok enqueue, s) = queue_then step rest d (step.async && enqueue) s

  unfoldable pub run_step_chain : List (Step S J) → ℤ → S → Bool × S
  run_step_chain [] d s = (false, s)
  run_step_chain (step ∷ chain) d s =
      after_run step (λ s'. run_step_chain chain d s') d (step.run s)

  abbrev pub after_after_step : Result (Unit {0}) × S → Verdict × S
  after_after_step (ok u, s) = (again, s)
  after_after_step (err e, s) = exit_if_done ctx (ctx.done s)

  abbrev pub after_chain : Bool → Bool × S → Verdict × S
  after_chain stop (true, s) = (exit, s)
  after_chain stop (false, s) = if stop then (exit, s) else after_after_step (r.after_step s)

  abbrev pub after_step_chain : Result (List (Step S J) × Bool) × S → Verdict × S
  after_step_chain (err e, s) = exit_if_done ctx (pause_or_exit ctx r.sleep_on_seed_error s)
  after_step_chain (ok (chain, stop), s) =
      after_chain stop (run_step_chain chain r.sleep_on_seed_error (r.reset s))

  abbrev pub after_before_step : Result (Unit {0}) × S → Verdict × S
  after_before_step (err e, s) = exit_if_done ctx (ctx.done s)
  after_before_step (ok u, s) = after_step_chain (r.step_chain s)

  abbrev pub unless_done : Bool × S → Verdict × S
  unless_done (true, s) = (exit, s)
  unless_done (false, s) = after_before_step (r.before_step s)

  -- One round of engine.run.
  unfoldable pub iteration : S → Verdict × S
  iteration s = unless_done (ctx.done s)

  abbrev pub proceed : (S → Verdict × S) → Verdict × S → Verdict × S
  proceed rest (exit, s) = (exit, s)
  proceed rest (again, s) = rest s

  -- At most `fuel` rounds: the loop itself has no bound.
  unfoldable pub run : ℕ → S → Verdict × S
  run zero s = (again, s)
  run (suc fuel) s = proceed (λ s'. run fuel s') (iteration s)
