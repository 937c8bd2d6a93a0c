-- ===== src/Backfill/Runner/Driver/Ends.antt =====
-- When the engine has ended a one-shot run, over all its iterations.
use pauli.Common.{
  ap, ◌∙◌, ℕ, zero, suc, ◌+◌, ◌^◌, ◌<◌, ◌≡◌, refl, sym, Bool, true, false, some, List, [], ◌∷◌, ◌⊎◌,
  inl, inr, subst, map,
}
use pauli.Common.Int.{pos}
use pauli.Exec.{Result, ok, err, Exec, pure, ◌>>=◌}
use pauli.Exec.Post.{Post, Post-weaken}
use pauli.Storage.{slot, epoch, Db, World}
use pauli.Storage.Progress.Gaps.{AllMarked}
use pauli.Engine
use pauli.Engine.{
  Verdict, again, exit, iteration, run, run_step_chain, after_chain, after_step_chain, proceed,
  after_after_step, pause_or_exit,
}
use pauli.Engine.Chain.{Calm, run_step_chain-cons, run_step_chain-quiet}
use pauli.Backfill.{run_slot_pass, run_epoch_pass}
use pauli.Backfill.Runner.{
  given_or, Runner, Options, OneShotBounds, Step, floor_slot, floor_epoch, one_shot_complete,
  step_chain, steps, slot_step, epoch_step, slot_pass, epoch_pass, caught_up, after_step,
}
use pauli.Backfill.Runner.Complete.{Decides, one_shot_complete-Post, step_chain-Post}
use pauli.Backfill.Runner.Driver.{
  State, driver, background, before_step, updating, beside, engine_step, chain_of,
}
use pauli.Backfill.Runner.Driver.OneShot.{Finished}

module _ (r : Runner) (b : OneShotBounds) where
  -- The runner's options, settings and bounds are as at the start.
  abbrev pub Fixed : Runner → Type 0
  Fixed r' = (r'.opts ≡ r.opts) × (r'.cfg ≡ r.cfg) × (r'.one_shot_bounds ≡ some b)

  abbrev pub AtRunner : State → Type 0
  AtRunner s = Fixed s.0

  -- What StepChain gives: the two passes, or no step and the end of the run.
  abbrev pub Gives : Runner → World → List Step × Bool → World → Type 0
  Gives r' w (chain, stop) w' =
      ((chain ≡ steps r') × (stop ≡ false) × (w'.db ≡ w.db))
      ⊎ ((chain ≡ []) × (stop ≡ true) × Finished r b w')

  -- An iteration that goes on keeps the runner; one that ends the run finds it finished.
  abbrev pub Ends : Verdict × State → Type 0
  Ends (again, s) = AtRunner s
  Ends (exit, s) = Finished r b s.1

  calm : Calm background AtRunner
  calm = record { done = λ s k. k; wait = λ d s k. k }

  beside-AtRunner :
      (m : Exec World Bool) (s : State)
      → AtRunner s
      → Post (λ _ s'. AtRunner s') AtRunner (beside m s)
  beside-AtRunner m s k = go (m s.1)
    where
      go : (x : Result Bool × World) → Post (λ _ s'. AtRunner s') AtRunner (beside (λ _. x) s)
      go (ok a, w') = k
      go (err e, w') = k

  abbrev chain : Runner → List (Engine.Step State (Unit {0}))
  chain r' = map engine_step (steps r')

  chain-AtRunner :
      (r' : Runner) (s : State)
      → AtRunner s
      → AtRunner (run_step_chain background (driver background) (chain r') (pos 0) s).1
  unfolding run_step_chain
  chain-AtRunner r' s k =
      run_step_chain-cons background (driver background) AtRunner calm AtRunner
        (engine_step (slot_pass (slot_step r'))) (engine_step (epoch_pass (epoch_step r')) ∷ [])
        (pos 0) s (beside-AtRunner (run_slot_pass (slot_step r')) s k)
        (λ s' k'.
          run_step_chain-cons background (driver background) AtRunner calm AtRunner
            (engine_step (epoch_pass (epoch_step r'))) [] (pos 0) s'
            (beside-AtRunner (run_epoch_pass (epoch_step r')) s' k') (λ s'' k''. k''))

  after_step-AtRunner : (s : State) → AtRunner s → AtRunner (updating after_step s).1
  unfolding after_step
  after_step-AtRunner s k = go (caught_up s.0 s.1)
    where
      go :
          (x : Result Bool × World)
          → AtRunner
              (updating
                (λ r' w. ((λ w'. x) >>= λ caught. pure (record r' { idle = caught })) w)
                s).1
      go (ok c, w') = k
      go (err e, w') = k

  after_hook :
      (y : Result (Unit {0}) × State)
      → AtRunner y.1
      → Ends (after_after_step background (driver background) y)
  after_hook (ok u, s) k = k
  after_hook (err e, s) k = k

  after_pass :
      (x : Bool × State)
      → x.0 ≡ false
      → AtRunner x.1
      → Ends (after_chain background (driver background) false x)
  unfolding driver
  after_pass (true, s) q k = absurd cc
  after_pass (false, s) q k = after_hook (updating after_step s) (after_step-AtRunner s k)

  after_chain_of :
      (r' : Runner) (w : World) (x : Result (List Step × Bool) × World)
      → Fixed r'
      → Post (Gives r' w) (λ _. Unit) x
      → Ends (after_step_chain background (driver background) (chain_of x r'))
  unfolding driver pause_or_exit run_step_chain
  after_chain_of r' w (ok (steps', stop), w') k (inl (same, going, kept)) =
      rw (same, going)
        (after_pass (run_step_chain background (driver background) (chain r') (pos 0) (r', w'))
          (run_step_chain-quiet background (driver background) (λ s. refl) (chain r') (pos 0)
            (r', w') refl)
          (chain-AtRunner r' (r', w') k))
  after_chain_of r' w (ok (steps', stop), w') k (inr (none_left, stops, done)) =
      rw (none_left, stops) done
  after_chain_of r' w (err e, w') k h = k

  module _ (low_slot : floor_slot r < 2 ^ 63) (low_epoch : floor_epoch r < 2 ^ 63)
      (one : r.opts.one_shot ≡ true) where
    floor_slot_same : (r' : Runner) → Fixed r' → floor_slot r ≡ floor_slot r'
    floor_slot_same r' k = λ i. given_or (sym k.0 i).start_slot (sym k.1 i).start_slot

    floor_epoch_same : (r' : Runner) → Fixed r' → floor_epoch r ≡ floor_epoch r'
    floor_epoch_same r' k = λ i. given_or (sym k.0 i).start_epoch (sym k.1 i).start_epoch

    -- The floors come from what stays fixed, and looking changed no table.
    same-Finished :
        (r' : Runner) (w w' : World) → Fixed r' → w'.db ≡ w.db → Finished r' b w → Finished r b w'
    same-Finished r' w w' k e h =
        let db : Finished r' b w' =
          subst
            (λ (d : Db).
              AllMarked slot d.progress (floor_slot r') (b.end_slot + 1)
              × AllMarked epoch d.progress (floor_epoch r') (b.end_epoch + 1))
            (sym e) h in
        (
          subst (λ n. AllMarked slot w'.db.progress n (b.end_slot + 1)) (sym (floor_slot_same r' k))
              db.0,
          subst (λ n. AllMarked epoch w'.db.progress n (b.end_epoch + 1))
              (sym (floor_epoch_same r' k)) db.1,
        )

    pub step_chain-Gives :
        (r' : Runner) (w : World) → Fixed r' → Post (Gives r' w) (λ _. Unit) (step_chain r' w)
    step_chain-Gives r' w k =
        step_chain-Post r' (Decides (Finished r' b w) w) (Gives r' w) (λ _. Unit) w
          (ap (λ (o : Options). o.one_shot) k.0 ∙ one)
          (Post-weaken {R = Decides (Finished r' b w) w} {F = λ _. Unit} (one_shot_complete r' w)
            (λ d w' h. h) (λ w' h. tt)
            (one_shot_complete-Post r' b w k.2
              (subst (λ n. n < 2 ^ 63) (floor_slot_same r' k) low_slot)
              (subst (λ n. n < 2 ^ 63) (floor_epoch_same r' k) low_epoch)))
          (λ w' h. inr (refl, refl, same-Finished r' w w' k h.0 (h.1.0 refl)))
          (λ w' h. inl (refl, refl, h.0))

    iteration-Ends : (s : State) → AtRunner s → Ends (iteration background (driver background) s)
    unfolding iteration driver before_step
    iteration-Ends (r', w) k = after_chain_of r' w (step_chain r' w) k (step_chain-Gives r' w k)

    after_iteration :
        (x : Verdict × State) (rest : State → Verdict × State)
        → Ends x
        → ((s : State) → AtRunner s → Ends (rest s))
        → Ends (proceed background (driver background) rest x)
    after_iteration (again, s) rest k h = h s k
    after_iteration (exit, s) rest k h = k

    pub run-Ends : (n : ℕ) (s : State) → AtRunner s → Ends (run background (driver background) n s)
    unfolding run
    run-Ends zero s k = k
    run-Ends (suc n) s k =
        after_iteration (iteration background (driver background) s)
          (λ s'. run background (driver background) n s') (iteration-Ends s k)
          (λ s' k'. run-Ends n s' k')
