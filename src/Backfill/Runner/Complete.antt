-- ===== src/Backfill/Runner/Complete.antt =====
-- What the answer of oneShotComplete means.
use pauli.Common.{
  ℕ, ◌+◌, ◌^◌, ◌<◌, ◌≡◌, refl, sym, ◌↔◌, inl, inr, Bool, true, false, Option, none, some, arith,
  ltb, ltb→lt, Bool-cases, List, [], if◌then◌else◌, ◌∙◌, subst,
}
use pauli.Exec.{pure, ◌>>=◌}
use pauli.Exec.Post.{Post, Post-bind, Post-weaken}
use pauli.Storage.{Kind, slot, epoch, Db, World}
use pauli.Storage.Progress.{first_unindexed}
use pauli.Storage.Progress.Gaps.{AllMarked, Found, first_unindexed-Found}
use pauli.Backfill.Runner.{
  Step, steps, step_chain, Runner, OneShotBounds, floor_slot, floor_epoch, answer, track_complete,
  one_shot_complete,
}

-- The answer tells whether `P` holds, and no table has changed.
abbrev pub Decides : Type 0 → World → Bool → World → Type 0
Decides P w b w' = (w'.db ≡ w.db) × ((b ≡ true) ↔ P)

abbrev pub Unchanged : World → World → Type 0
Unchanged w w' = w'.db ≡ w.db

module _ (r : Runner) where
  track_complete-Post :
      (k : Kind) (floor end : ℕ) (w : World)
      → floor < 2 ^ 63
      → Post
          (Decides (AllMarked k w.db.progress floor (end + 1)) w)
          (Unchanged w)
          (track_complete r k floor end w)
  track_complete-Post k floor end w small = elim (Bool-cases (ltb end floor)) [
    | inl over ↦ rw over (
      refl,
      (
        (λ e p above below. let h : end < floor = ltb→lt _ _ over in absurd (omega arith)),
        λ a. refl,
      ),
    )
    | inr inside ↦ rw inside (
        Post-bind (Found k floor (end + 1) w)
          (Decides (AllMarked k w.db.progress floor (end + 1)) w) (Unchanged w)
          (first_unindexed r.repo k floor end) _ w
          (first_unindexed-Found r.repo k floor end w small) decided)
  ]
    where
      decided :
          (found : Option ℕ) (w' : World)
          → Found k floor (end + 1) w found w'
          → Post
              (Decides (AllMarked k w.db.progress floor (end + 1)) w)
              (Unchanged w)
              (answer r found w')
      decided none w' f = (f.0, ((λ e. f.1), λ a. refl))
      decided (some q) w' f = (f.0, ((λ e. cc), λ a. cc (sym (a q f.1.0 f.1.1) ∙ f.1.2)))

  -- With frozen bounds and floors below 2^63: an answer is yes exactly if every slot and every
  -- epoch from the floor to the frozen end is marked; no table changes, also where the call fails.
  pub one_shot_complete-Post :
      (b : OneShotBounds) (w : World)
      → r.one_shot_bounds ≡ some b
      → floor_slot r < 2 ^ 63
      → floor_epoch r < 2 ^ 63
      → Post
          (Decides
            (AllMarked slot w.db.progress (floor_slot r) (b.end_slot + 1)
              × AllMarked epoch w.db.progress (floor_epoch r) (b.end_epoch + 1))
            w)
          (Unchanged w)
          (one_shot_complete r w)
  unfolding one_shot_complete
  one_shot_complete-Post b w frozen low_slot low_epoch = rw frozen (
      Post-bind (Decides Slots w) (Decides (Slots × Epochs) w) (Unchanged w)
        (track_complete r slot (floor_slot r) b.end_slot) _ w
        (track_complete-Post slot (floor_slot r) b.end_slot w low_slot) after)
    where
      Slots : Type 0
      Slots = AllMarked slot w.db.progress (floor_slot r) (b.end_slot + 1)

      Epochs : Type 0
      Epochs = AllMarked epoch w.db.progress (floor_epoch r) (b.end_epoch + 1)

      Epochs_of : Db → Type 0
      Epochs_of d = AllMarked epoch d.progress (floor_epoch r) (b.end_epoch + 1)

      after :
          (found : Bool) (w' : World)
          → Decides Slots w found w'
          → Post (Decides (Slots × Epochs) w) (Unchanged w) (
              (if found
                  then (pure b.end_epoch >>= λ end_epoch.
                      track_complete r epoch (floor_epoch r) end_epoch)
                  else pure false)
                w')
      after false w' h = (h.0, ((λ e. cc), λ both. cc (h.1.1 both.0)))
      after true w' h =
          Post-weaken {R = Decides (Slots × Epochs) w} {F = Unchanged w}
            (track_complete r epoch (floor_epoch r) b.end_epoch w')
            (λ done w'' k. (
              k.0 ∙ h.0,
              (
                (λ e. (h.1.0 refl, subst Epochs_of h.0 (k.1.0 e))),
                λ both. k.1.1 (subst Epochs_of (sym h.0) both.1),
              ),
            ))
            (λ w'' same. same ∙ h.0)
            (track_complete-Post epoch (floor_epoch r) b.end_epoch w' low_epoch)

  -- StepChain of a one-shot runner follows the answer.
  pub step_chain-Post :
      (D : Bool → World → Type 0) (Q : List Step × Bool → World → Type 0) (E : World → Type 0)
      (w : World)
      → r.opts.one_shot ≡ true
      → Post D E (one_shot_complete r w)
      → ((w' : World) → D true w' → Q ([], true) w')
      → ((w' : World) → D false w' → Q (steps r, false) w')
      → Post Q E (step_chain r w)
  unfolding step_chain
  step_chain-Post D Q E w one answer whole partial = gate r.opts.one_shot one
    where
      decided :
          (done : Bool) (w' : World)
          → D done w'
          → Post Q E ((if done then pure ([], true) else pure (steps r, false)) w')
      decided true w' h = whole w' h
      decided false w' h = partial w' h

      gate :
          (flag : Bool)
          → flag ≡ true
          → Post Q E (
              (if flag
                  then (one_shot_complete r >>= λ done.
                      if done then pure ([], true) else pure (steps r, false))
                  else pure (steps r, false))
                w)
      gate true e = Post-bind D Q E (one_shot_complete r) _ w answer decided
      gate false e = absurd cc
