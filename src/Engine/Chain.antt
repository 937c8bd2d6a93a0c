-- ===== src/Engine/Chain.antt =====
-- runStepChain: how what holds after a step carries to the rest of the chain and to its end.
use pauli.Common.{sym, ◌∙◌, ◌≡◌, refl, Bool, true, false, ◌&&◌, List, [], ◌∷◌, Bool-cases, inl, inr}
use pauli.Common.Int.{ℤ}
use pauli.Config.{nonpositive}
use pauli.Exec.{Result, ok, err}
use pauli.Exec.Post.{Post}
use pauli.Engine.{
  Step, Context, Runner, pause_or_exit, pause_after_error, enqueue_failed, queue_then, after_run,
  run_step_chain, exit_if_done, after_chain, after_after_step, after_step_chain, again, exit,
}

-- Looking at the context, or waiting, leaves the predicate true.
pub record Calm {S : Type 0} (ctx : Context S) (P : S → Type 0) : Type 0 where
  pub done : (s : S) → P s → P (ctx.done s).1
  pub wait : (d : ℤ) (s : S) → P s → P (ctx.wait d s).1

module _ {S J : Type 0} (ctx : Context S) (r : Runner S J) where
  -- What has to hold once a step has run: `Q` before the next step, `P` where the chain ends.
  abbrev pub Queues : (Q P : S → Type 0) → Step S J → Bool → S → Type 0
  Queues Q P step true s = Post (λ _ s'. Q s') P (r.enqueue (step.job s) s)
  Queues Q P step false s = Q s

  module _ (P : S → Type 0) (calm : Calm ctx P) where
    pause_after_error_stays : (d : ℤ) (s : S) → P s → P (pause_after_error ctx d s).1
    unfolding pause_or_exit
    pause_after_error_stays d s h = elim (Bool-cases (nonpositive d)) [
      | inl short ↦ rw short h
      | inr long ↦ rw long (calm.wait d s h)
    ]

    enqueue_failed_stays : (d : ℤ) (x : Bool × S) → P x.1 → P (enqueue_failed ctx r d x).1
    enqueue_failed_stays d (true, s) h = h
    enqueue_failed_stays d (false, s) h = pause_after_error_stays d s h

    pub run_step_chain-cons :
        (Q : S → Type 0) (step : Step S J) (chain : List (Step S J)) (d : ℤ) (s : S)
        → Post (λ enqueue s'. Queues Q P step (step.async && enqueue) s') P (step.run s)
        → ((s' : S) → Q s' → P (run_step_chain ctx r chain d s').1)
        → P (run_step_chain ctx r (step ∷ chain) d s).1
    unfolding run_step_chain
    run_step_chain-cons Q step chain d s h rest = ran (step.run s) h
      where
        rest_of : S → Bool × S
        rest_of s' = run_step_chain ctx r chain d s'

        queued :
            (x : Result (Unit {0}) × S)
            → Post (λ _ s'. Q s') P x
            → P (queue_then ctx (record r { enqueue = λ _ _. x }) step rest_of d true s).1
        queued (ok u, s') q = rest s' q
        queued (err e, s') q = enqueue_failed_stays d (ctx.done s') (calm.done s' q)

        went :
            (b : Bool) (s' : S) → Queues Q P step b s' → P (queue_then ctx r step rest_of d b s').1
        went true s' q = queued (r.enqueue (step.job s') s') q
        went false s' q = rest s' q

        ran :
            (x : Result Bool × S)
            → Post (λ enqueue s'. Queues Q P step (step.async && enqueue) s') P x
            → P (after_run ctx r step rest_of d x).1
        ran (ok enqueue, s') q = went (step.async && enqueue) s' q
        ran (err e, s') q = pause_after_error_stays d s' q

-- Under a context that is never done and without a pause after errors, no chain ends the run.
module _ {S J : Type 0} (ctx : Context S) (r : Runner S J)
    (never : (s : S) → (ctx.done s).0 ≡ false) where
  enqueue_failed-quiet :
      (d : ℤ) (x : Bool × S)
      → nonpositive d ≡ true
      → x.0 ≡ false
      → (enqueue_failed ctx r d x).0 ≡ false
  enqueue_failed-quiet d (true, s) low h = h
  enqueue_failed-quiet d (false, s) low h = rw low refl

  after_run-quiet :
      (step : Step S J) (rest : S → Bool × S) (d : ℤ) (x : Result Bool × S)
      → nonpositive d ≡ true
      → ((s : S) → (rest s).0 ≡ false)
      → (after_run ctx r step rest d x).0 ≡ false
  after_run-quiet step rest d (err e, s) low h = rw low refl
  after_run-quiet step rest d (ok enqueue, s) low h = went (step.async && enqueue)
    where
      queued :
          (x : Result (Unit {0}) × S)
          → (queue_then ctx (record r { enqueue = λ _ _. x }) step rest d true s).0 ≡ false
      queued (ok u, s') = h s'
      queued (err e, s') = enqueue_failed-quiet d (ctx.done s') low (never s')

      went : (b : Bool) → (queue_then ctx r step rest d b s).0 ≡ false
      went true = queued (r.enqueue (step.job s) s)
      went false = h s

  pub run_step_chain-quiet :
      (chain : List (Step S J)) (d : ℤ) (s : S)
      → nonpositive d ≡ true
      → (run_step_chain ctx r chain d s).0 ≡ false
  unfolding run_step_chain
  run_step_chain-quiet [] d s low = refl
  run_step_chain-quiet (step ∷ chain) d s low =
      after_run-quiet step (λ s'. run_step_chain ctx r chain d s') d (step.run s) low
        (λ s'. run_step_chain-quiet chain d s' low)

  exit_if_done-again : (x : Bool × S) → x.0 ≡ false → (exit_if_done ctx x).0 ≡ again
  exit_if_done-again (true, s) h = absurd cc
  exit_if_done-again (false, s) h = refl

  pub after_after_step-again : (x : Result (Unit {0}) × S) → (after_after_step ctx r x).0 ≡ again
  after_after_step-again (ok u, s) = refl
  after_after_step-again (err e, s) = exit_if_done-again (ctx.done s) (never s)

  after_chain-stop :
      (stop : Bool) (x : Bool × S) → x.0 ≡ false → (after_chain ctx r stop x).0 ≡ exit → stop ≡ true
  after_chain-stop stop (true, s) q e = absurd cc
  after_chain-stop true (false, s) q e = refl
  after_chain-stop false (false, s) q e =
      absurd cc (sym (after_after_step-again (r.after_step s)) ∙ e)

  -- StepChain has asked to stop after this pass.
  abbrev pub AsksToStop : Result (List (Step S J) × Bool) × S → Type 0
  AsksToStop (ok (chain, stop), s) = stop ≡ true
  AsksToStop (err e, s) = ⊥

  pub after_step_chain-AsksToStop :
      (x : Result (List (Step S J) × Bool) × S)
      → nonpositive r.sleep_on_seed_error ≡ true
      → (after_step_chain ctx r x).0 ≡ exit
      → AsksToStop x
  unfolding pause_or_exit
  after_step_chain-AsksToStop (ok (chain, stop), s) low e =
      after_chain-stop stop (run_step_chain ctx r chain r.sleep_on_seed_error (r.reset s))
        (run_step_chain-quiet chain r.sleep_on_seed_error (r.reset s) low) e
  after_step_chain-AsksToStop (err e', s) low e =
      absurd cc (
        sym (exit_if_done-again (pause_or_exit ctx r.sleep_on_seed_error s) (rw low (never s))) ∙ e)
