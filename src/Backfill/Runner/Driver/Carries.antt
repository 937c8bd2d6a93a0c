-- ===== src/Backfill/Runner/Driver/Carries.antt =====
-- The engine over a one-shot backfill runner whose server answers: what its passes carry on from
-- iteration to iteration.
use pauli.Common.{
  ℕ, zero, suc, ◌+◌, ◌^◌, ◌<◌, ◌≡◌, refl, sym, ap, Bool, true, false, some, List, [], ◌∷◌, inl, inr,
  subst, map, arith,
}
use pauli.Common.Int.{pos}
use pauli.Exec.{Exec, Result, ok, err, pure, ◌>>=◌}
use pauli.Exec.Post.{Post}
use pauli.Exec.Returns.{IsOk}
use pauli.Backfill.Runner.Driver.OneShot.{Finished}
use pauli.Storage.{Db, answered, World}
use pauli.Engine
use pauli.Engine.{
  Verdict, again, exit, iteration, run, run_step_chain, after_chain, after_step_chain, proceed,
  after_after_step, pause_or_exit,
}
use pauli.Engine.Chain.{Calm, run_step_chain-cons, run_step_chain-quiet}
use pauli.Backfill.{run_slot_pass, run_epoch_pass}
use pauli.Backfill.Runner.{
  Runner, OneShotBounds, Step, floor_slot, floor_epoch, step_chain, steps, slot_step, epoch_step,
  slot_pass, epoch_pass, caught_up, after_step,
}
use pauli.Backfill.Runner.Looks.{caught_up-Keeps}
use pauli.Backfill.Runner.Driver.{
  State, driver, background, before_step, updating, beside, engine_step, chain_of,
}
use pauli.Backfill.Runner.Driver.Ends.{Gives, step_chain-Gives}
use pauli.Backfill.Runner.Driver.Answers.{step_chain-IsOk}

abbrev pub idling : Runner → Bool → Runner
idling r c = record r { idle = c }

-- `P j` holds before the passes of the iteration `j`, and `Q j` between the two.
module _ (r : Runner) (b : OneShotBounds) (P Q : ℕ → Db → Type 0) where
  -- Only the field `idle` has changed.
  abbrev pub AtStart : ℕ → State → Type 0
  AtStart j s = ((c : Bool) × (s.0 ≡ idling r c)) × P j s.1.db

  abbrev Between : ℕ → State → Type 0
  Between j s = ((c : Bool) × (s.0 ≡ idling r c)) × Q j s.1.db

  -- After an iteration that goes on the next one can start; the end of a run finds it finished.
  abbrev pub Carried : ℕ → Verdict × State → Type 0
  Carried j (again, s) = AtStart j s
  Carried j (exit, s) = Finished r b s.1

  calm : (j : ℕ) → Calm background (AtStart j)
  calm j = record { done = λ s k. k; wait = λ d s k. k }

  beside-Post :
      (A B : Db → Type 0) (m : Exec World Bool) (s : State)
      → ((c : Bool) × (s.0 ≡ idling r c))
      → Post (λ _ w'. A w'.db) (λ w'. B w'.db) (m s.1)
      → Post
          (λ _ s'. ((c : Bool) × (s'.0 ≡ idling r c)) × A s'.1.db)
          (λ s'. ((c : Bool) × (s'.0 ≡ idling r c)) × B s'.1.db)
          (beside m s)
  beside-Post A B m s k = go (m s.1)
    where
      go :
          (x : Result Bool × World)
          → Post (λ _ w'. A w'.db) (λ w'. B w'.db) x
          → Post
              (λ _ s'. ((c : Bool) × (s'.0 ≡ idling r c)) × A s'.1.db)
              (λ s'. ((c : Bool) × (s'.0 ≡ idling r c)) × B s'.1.db)
              (beside (λ _. x) s)
      go (ok a, w') h = (k, h)
      go (err e, w') h = (k, h)

  module _
      (slots : (j : ℕ) (w : World)
        → P j w.db
        → Post (λ _ w'. Q j w'.db) (λ w'. P (suc j) w'.db) (run_slot_pass (slot_step r) w))
      (epochs : (j : ℕ) (w : World)
        → Q j w.db
        → Post
            (λ _ w'. P (suc j) w'.db)
            (λ w'. P (suc j) w'.db)
            (run_epoch_pass (epoch_step r) w)) where
    abbrev chain : List (Engine.Step State (Unit {0}))
    chain = map engine_step (steps r)

    chain-AtStart :
        (j : ℕ) (s : State)
        → AtStart j s
        → AtStart (suc j) (run_step_chain background (driver background) chain (pos 0) s).1
    unfolding run_step_chain
    chain-AtStart j s k =
        run_step_chain-cons background (driver background) (AtStart (suc j)) (calm (suc j))
          (Between j) (engine_step (slot_pass (slot_step r)))
          (engine_step (epoch_pass (epoch_step r)) ∷ []) (pos 0) s
          (beside-Post (Q j) (P (suc j)) (run_slot_pass (slot_step r)) s k.0 (slots j s.1 k.1))
          (λ s' k'.
            run_step_chain-cons background (driver background) (AtStart (suc j)) (calm (suc j))
              (AtStart (suc j)) (engine_step (epoch_pass (epoch_step r))) [] (pos 0) s'
              (beside-Post (P (suc j)) (P (suc j)) (run_epoch_pass (epoch_step r)) s' k'.0
                (epochs j s'.1 k'.1))
              (λ s'' k''. k''))

    after_step-AtStart : (j : ℕ) (s : State) → AtStart j s → AtStart j (updating after_step s).1
    unfolding after_step
    after_step-AtStart j s k = go (caught_up s.0 s.1) ((caught_up-Keeps (P j) s.0).stays s.1 k.1)
      where
        go :
            (x : Result Bool × World)
            → P j x.1.db
            → AtStart j
                (updating
                  (λ r' w. ((λ w'. x) >>= λ caught. pure (record r' { idle = caught })) w)
                  s).1
        go (ok c, w') h = ((c, ap (λ (r' : Runner). record r' { idle = c }) k.0.1), h)
        go (err e, w') h = (k.0, h)

    after_hook :
        (j : ℕ) (y : Result (Unit {0}) × State)
        → AtStart j y.1
        → Carried j (after_after_step background (driver background) y)
    after_hook j (ok u, s) k = k
    after_hook j (err e, s) k = k

    after_chain-Carried :
        (j : ℕ) (x : Bool × State)
        → x.0 ≡ false
        → AtStart j x.1
        → Carried j (after_chain background (driver background) false x)
    unfolding driver
    after_chain-Carried j (true, s) q k = absurd cc
    after_chain-Carried j (false, s) q k =
        after_hook j (updating after_step s) (after_step-AtStart j s k)

    after_chain_of :
        (j : ℕ) (c : Bool) (w : World) (x : Result (List Step × Bool) × World)
        → P j w.db
        → IsOk x
        → Post (Gives r b (idling r c) w) (λ _. Unit) x
        → Carried
            (suc j)
            (after_step_chain background (driver background) (chain_of x (idling r c)))
    unfolding driver pause_or_exit run_step_chain
    after_chain_of j c w (ok (steps', stop), w') h i (inl (same, going, kept)) =
        rw (same, going)
          (after_chain-Carried (suc j)
            (run_step_chain background (driver background) chain (pos 0) (idling r c, w'))
            (run_step_chain-quiet background (driver background) (λ s. refl) chain (pos 0)
              (idling r c, w') refl)
            (chain-AtStart j (idling r c, w') ((c, refl), subst (P j) (sym kept) h)))
    after_chain_of j c w (ok (steps', stop), w') h i (inr (none_left, stops, done)) =
        rw (none_left, stops) done
    after_chain_of j c w (err e, w') h i k = absurd i

    module _ (live : (n : ℕ) → r.repo.fate n ≡ answered) (one : r.opts.one_shot ≡ true)
        (frozen : r.one_shot_bounds ≡ some b) (small_slot : b.end_slot < 2 ^ 63)
        (small_epoch : b.end_epoch < 2 ^ 63) (low_slot : floor_slot r < 2 ^ 63)
        (low_epoch : floor_epoch r < 2 ^ 63) where
      after_idling :
          (j : ℕ) (c : Bool) (w : World)
          → P j w.db
          → Carried (suc j) (iteration background (driver background) (idling r c, w))
      unfolding iteration driver before_step
      after_idling j c w h =
          after_chain_of j c w (step_chain (idling r c) w) h
            (step_chain-IsOk (idling r c) b live w one frozen small_slot small_epoch)
            (step_chain-Gives r b low_slot low_epoch one (idling r c) w (refl, refl, frozen))

      pub iteration-Carried :
          (j : ℕ) (s : State)
          → AtStart j s
          → Carried (suc j) (iteration background (driver background) s)
      iteration-Carried j (r', w) k =
          subst (λ x. Carried (suc j) (iteration background (driver background) (x, w))) (sym k.0.1)
            (after_idling j k.0.0 w k.1)

      pub after_iteration :
          (E : Verdict × State → Type 0) (j : ℕ) (x : Verdict × State)
          (rest : State → Verdict × State)
          → Carried j x
          → ((s : State) → Finished r b s.1 → E (exit, s))
          → ((s : State) → AtStart j s → E (rest s))
          → E (proceed background (driver background) rest x)
      after_iteration E j (again, s) rest k done h = h s k
      after_iteration E j (exit, s) rest k done h = done s k

      pub run-Carried :
          (n j : ℕ) (s : State)
          → AtStart j s
          → Carried (j + n) (run background (driver background) n s)
      unfolding run
      run-Carried zero j s k = subst (λ x. AtStart x s) (let e : j ≡ j + 0 = omega arith in e) k
      run-Carried (suc n) j s k =
          after_iteration (Carried (j + suc n)) (suc j) (iteration background (driver background) s)
            (λ s'. run background (driver background) n s') (iteration-Carried j s k) (λ s' h. h)
            (λ s' k'.
              subst (λ x. Carried x (run background (driver background) n s'))
                (let e : suc j + n ≡ j + suc n = omega arith in e) (run-Carried n (suc j) s' k'))
