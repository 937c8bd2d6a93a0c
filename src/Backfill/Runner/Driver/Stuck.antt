-- ===== src/Backfill/Runner/Driver/Stuck.antt =====
-- The engine and a one-shot run whose start slot lies below the configured one.
use pauli.Common.{
  ℕ, ◌^◌, ◌<◌, ◌≤◌, ◌≡◌, refl, sym, ◌∙◌, Bool, true, false, some, List, [], ◌∷◌, subst, arith, zero,
  suc, map,
}
use pauli.Common.Int.{pos}
use pauli.Exec.{Result, ok, err, Exec, pure, ◌>>=◌}
use pauli.Exec.Post.{Post, Post-weaken}
use pauli.Storage.{World}
use pauli.Engine
use pauli.Engine.{
  Verdict, again, exit, Context, iteration, run, run_step_chain, after_chain, after_step_chain,
  proceed, after_after_step, pause_or_exit,
}
use pauli.Engine.Chain.{Calm, run_step_chain-cons, run_step_chain-quiet}
use pauli.Backfill.{run_slot_pass, run_epoch_pass, slot_floor}
use pauli.Backfill.Below.{Unmarked, SmallHeads, run_slot_pass-Unmarked}
use pauli.Backfill.EpochReads.{run_epoch_pass-Unmarked}
use pauli.Backfill.Runner.Looks.{caught_up-Keeps}
use pauli.Backfill.Runner.{
  Runner, OneShotBounds, Step, floor_slot, floor_epoch, one_shot_complete, step_chain, steps,
  slot_step, epoch_step, slot_pass, epoch_pass, caught_up, after_step,
}
use pauli.Backfill.Runner.Complete.{Decides, one_shot_complete-Post, step_chain-Post}
use pauli.Backfill.Runner.Driver.{
  State, driver, background, before_step, updating, beside, engine_step, chain_of,
}
use pauli.Backfill.Runner.Driver.OneShot.{Finished}

module _ (b : OneShotBounds) (p : ℕ) where
  -- The slot belongs to the frozen bounds and lies below the floor of the slot pass.
  abbrev pub Waits : Runner → Type 0
  Waits r =
      (r.opts.one_shot ≡ true)
      × (r.one_shot_bounds ≡ some b)
      × (floor_slot r ≤ p)
      × (p ≤ b.end_slot)
      × (p < slot_floor (slot_step r))
      × (slot_floor (slot_step r) < 2 ^ 63)
      × (floor_epoch r < 2 ^ 63)
      × SmallHeads (slot_step r)

  abbrev pub Stuck : State → Type 0
  Stuck s = Waits s.0 × Unmarked p s.1.db

  module _ (r : Runner) (h : Waits r) where
    -- StepChain never asks to stop, and gives the two passes.
    abbrev Goes : List Step × Bool → World → Type 0
    Goes (chain, stop) w' = (chain ≡ steps r) × (stop ≡ false) × Unmarked p w'.db

    abbrev Remains : World → Type 0
    Remains w' = Unmarked p w'.db

    step_chain-Goes : (w : World) → Unmarked p w.db → Post Goes Remains (step_chain r w)
    step_chain-Goes w q =
        step_chain-Post r (Decides (Finished r b w) w) Goes Remains w h.0
          (Post-weaken {R = Decides (Finished r b w) w} {F = Remains} (one_shot_complete r w)
            (λ d w' k. k) (λ w' same. subst (Unmarked p) (sym same) q)
            (one_shot_complete-Post r b w h.1 (omega (arith, h.2, h.4, h.5)) h.6))
          (λ w' k. absurd (cc (sym ((k.1.0 refl).0 p h.2 (omega (arith, h.3))) ∙ q)))
          (λ w' k. (refl, refl, subst (Unmarked p) (sym k.0) q))

    calm : Calm background Stuck
    calm = record { done = λ s k. k; wait = λ d s k. k }

    beside-Post :
        (m : Exec World Bool) (s : State)
        → Stuck s
        → Unmarked p (m s.1).1.db
        → Post (λ _ s'. Stuck s') Stuck (beside m s)
    beside-Post m s k q = go (m s.1) q
      where
        go :
            (x : Result Bool × World)
            → Unmarked p x.1.db
            → Post (λ _ s'. Stuck s') Stuck (beside (λ _. x) s)
        go (ok a, w') q' = (k.0, q')
        go (err e, w') q' = (k.0, q')

    abbrev chain : List (Engine.Step State (Unit {0}))
    chain = map engine_step (steps r)

    epoch_step-Stuck :
        (s : State)
        → Stuck s
        → Stuck
            (run_step_chain background
              (driver background)
              (engine_step (epoch_pass (epoch_step r)) ∷ [])
              (pos 0)
              s).1
    unfolding run_step_chain
    epoch_step-Stuck s k =
        run_step_chain-cons background (driver background) Stuck calm Stuck
          (engine_step (epoch_pass (epoch_step r))) [] (pos 0) s
          (beside-Post (run_epoch_pass (epoch_step r)) s k
            ((run_epoch_pass-Unmarked (epoch_step r) p).stays s.1 k.1))
          (λ s' k'. k')

    chain-Stuck :
        (s : State)
        → Stuck s
        → Stuck (run_step_chain background (driver background) chain (pos 0) s).1
    chain-Stuck s k =
        run_step_chain-cons background (driver background) Stuck calm Stuck
          (engine_step (slot_pass (slot_step r))) (engine_step (epoch_pass (epoch_step r)) ∷ [])
          (pos 0) s
          (beside-Post (run_slot_pass (slot_step r)) s k
            (run_slot_pass-Unmarked (slot_step r) p h.4 h.5 h.7 s.1 k.1))
          epoch_step-Stuck

  -- The loop goes on, and the slot is as before.
  abbrev pub GoesOn : Verdict × State → Type 0
  GoesOn x = (x.0 ≡ again) × Stuck x.1

  caught_up-Stuck : (s : State) → Stuck s → Stuck (updating after_step s).1
  unfolding after_step
  caught_up-Stuck s k = go (caught_up s.0 s.1) ((caught_up-Keeps (Unmarked p) s.0).stays s.1 k.1)
    where
      go :
          (x : Result Bool × World)
          → Unmarked p x.1.db
          → Stuck
              (updating (λ r w. ((λ w'. x) >>= λ caught. pure (record r { idle = caught })) w) s).1
      go (ok c, w') q = (k.0, q)
      go (err e, w') q = (k.0, q)

  after_hook :
      (y : Result (Unit {0}) × State)
      → Stuck y.1
      → GoesOn (after_after_step background (driver background) y)
  after_hook (ok u, s) k = (refl, k)
  after_hook (err e, s) k = (refl, k)

  after_pass :
      (x : Bool × State)
      → x.0 ≡ false
      → Stuck x.1
      → GoesOn (after_chain background (driver background) false x)
  unfolding driver
  after_pass (true, s) q k = absurd cc
  after_pass (false, s) q k = after_hook (updating after_step s) (caught_up-Stuck s k)

  after_chain_of :
      (r : Runner) (h : Waits r) (x : Result (List Step × Bool) × World)
      → Post (Goes r h) (Remains r h) x
      → GoesOn (after_step_chain background (driver background) (chain_of x r))
  unfolding driver pause_or_exit
  after_chain_of r h (ok (steps', stop), w') k =
      rw (k.0, k.1)
        (after_pass (run_step_chain background (driver background) (chain r h) (pos 0) (r, w'))
          (run_step_chain-quiet background (driver background) (λ s. refl) (chain r h) (pos 0)
            (r, w') refl)
          (chain-Stuck r h (r, w') (h, k.2)))
  after_chain_of r h (err e, w') k = (refl, (h, k))

  iteration-GoesOn : (s : State) → Stuck s → GoesOn (iteration background (driver background) s)
  unfolding iteration driver before_step
  iteration-GoesOn (r, w) k = after_chain_of r k.0 (step_chain r w) (step_chain-Goes r k.0 w k.1)

  after_iteration :
      (x : Verdict × State) (rest : State → Verdict × State)
      → GoesOn x
      → ((s : State) → Stuck s → GoesOn (rest s))
      → GoesOn (proceed background (driver background) rest x)
  after_iteration (again, s) rest k h = h s k.1
  after_iteration (exit, s) rest k h = absurd (cc k.0)

  -- While nobody cancels it, and with heads and floors below 2^63: a one-shot run never ends if a
  -- slot of its frozen bounds is unmarked and lies below the floor of the slot pass, which is the
  -- larger of the two start slots. After any number of iterations it still goes on, and the slot
  -- is still unmarked.
  pub run-GoesOn :
      (n : ℕ) (s : State)
      → Waits s.0
      → Unmarked p s.1.db
      → GoesOn (run background (driver background) n s)
  unfolding run
  run-GoesOn zero s h q = (refl, (h, q))
  run-GoesOn (suc n) s h q =
      after_iteration (iteration background (driver background) s)
        (λ s'. run background (driver background) n s') (iteration-GoesOn s (h, q))
        (λ s' k. run-GoesOn n s' k.0 k.1)
