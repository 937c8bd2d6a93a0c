-- ===== src/Backfill/Epochs.antt =====
-- EpochPass.Run: which epochs a pass marks.
use pauli.Common.{
  ℕ, zero, suc, ◌+◌, ◌/◌, ◌%◌, ◌^◌, ◌≤◌, ◌<◌, ◌≡◌, refl, inl, inr, false, Option, none, some, arith,
  ltb, ltb→le, Bool-cases, if◌then◌else◌, ap, ◌∙◌,
}
use pauli.Common.Int.{pos_part}
use pauli.Exec.{ok, ◌>>=◌}
use pauli.Exec.Post.{Post-bind, Post-weaken, Post-state, state-Post}
use pauli.Storage.{epoch, Db, World, at}
use pauli.Storage.Keeps.{Keeps, Keeps-bind, Keeps-if, Keeps-pure, keeps_rules}
use pauli.Storage.Progress.{is_epoch_indexed, is_progress, first_unindexed, first_unindexed_epoch}
use pauli.Storage.Progress.Marks.{Marks, Marks-trans, Marks-weaken, same-Marks}
use pauli.Storage.Progress.Gaps.{Found, first_unindexed-Found}
use pauli.Config.{slots_per_epoch}
use pauli.Indexing.{fetch}
use pauli.Indexing.Epochs.{index_epoch_at_boundary}
use pauli.Indexing.Epochs.Outcome.{index_epoch_at_boundary-OnlyEpoch}
use pauli.Backfill.{
  EpochPass, epoch_target, epoch_floor, visit_epoch, epoch_loop, epochs_from, run_epoch_pass,
  capped,
}
use pauli.Backfill.SlotLoop.{Within}

-- Only epochs of the range get marked, no mark is lost, and no block changes.
abbrev pub OnlyEpochs : ℕ → ℕ → World → Db → Type 0
OnlyEpochs lo hi w d = Marks (Within epoch lo hi) w (at 0 d) × (d.blocks ≡ w.db.blocks)

module _ (s : EpochPass) (lo hi : ℕ) (w : World) where
  index-Keeps :
      (e : ℕ)
      → lo ≤ e
      → e ≤ hi
      → Keeps
          (OnlyEpochs lo hi w)
          (index_epoch_at_boundary (record { client = s.client; repo = s.repo }) e)
  index-Keeps e above below = record {
    stays = λ v h.
        let (m, b) =
          index_epoch_at_boundary-OnlyEpoch (record { client = s.client; repo = s.repo }) e v in
        (
          Marks-trans w v (at 0 _) (record { keeps = h.0.keeps; adds = h.0.adds })
              (Marks-weaken v (at 0 _)
                (λ k p new. (new.0, omega (arith, new.1), omega (arith, new.1))) m),
          b ∙ h.1,
        );
  }

  test-Keeps : (e : ℕ) → Keeps (OnlyEpochs lo hi w) (is_epoch_indexed s.repo e)
  unfolding is_epoch_indexed is_progress
  test-Keeps e = search keeps_rules

  visit-Keeps : (e : ℕ) → lo ≤ e → e ≤ hi → Keeps (OnlyEpochs lo hi w) (visit_epoch s e)
  unfolding visit_epoch
  visit-Keeps e above below = Keeps-bind (is_epoch_indexed s.repo e) _ (test-Keeps e) (λ done.
      Keeps-if done _ _ (Keeps-pure tt) (
        Keeps-bind (index_epoch_at_boundary (record { client = s.client; repo = s.repo }) e) _
          (index-Keeps e above below)
          (λ _. Keeps-bind (is_epoch_indexed s.repo e) _ (test-Keeps e) (λ _. Keeps-pure tt))))

  loop-Keeps :
      (rounds i first : ℕ)
      → lo ≤ first
      → first + i ≤ hi + 1
      → hi + 1 < 2 ^ 64
      → Keeps (OnlyEpochs lo hi w) (epoch_loop s rounds i first hi)
  unfolding epoch_loop
  loop-Keeps zero i first above below fits = Keeps-pure tt
  loop-Keeps (suc rounds) i first above below fits =
      let exact : (first + i) % 2 ^ 64 ≡ first + i = omega arith in
      rw exact (elim (Bool-cases (ltb hi (first + i))) [
        | inl over ↦ rw over (Keeps-pure tt)
        | inr inside ↦
            let le : first + i ≤ hi = ltb→le _ _ inside in
            rw inside (
              Keeps-bind (visit_epoch s (first + i)) (λ _. epoch_loop s rounds (i + 1) first hi)
                (visit-Keeps (first + i) (omega arith) le)
                (λ _. loop-Keeps rounds (i + 1) first above (omega arith) fits))
      ])

module _ (s : EpochPass) (finalized head : ℕ) where
  epoch_target-le : epoch_target s finalized head ≤ finalized
  epoch_target-le = go s.end_epoch_override
    where
      go :
          (o : Option ℕ)
          → capped o
              (if ltb (head / slots_per_epoch) finalized then head / slots_per_epoch else finalized)
            ≤ finalized
      go none = ground arith
      go (some o) = ground arith

  abbrev Bounded : World → World → Type 0
  Bounded w w' = OnlyEpochs (epoch_floor s) (epoch_target s finalized head) w w'.db

  from_here : (w w1 : World) → w1.db ≡ w.db → Bounded w w1
  from_here w w1 e =
      (same-Marks w (at 0 w1.db) (ap (λ (d : Db). d.progress) e), ap (λ (d : Db). d.blocks) e)

  after_scan :
      (w : World) (found : Option ℕ) (w1 : World)
      → finalized < 2 ^ 63
      → Found epoch (epoch_floor s) (epoch_target s finalized head + 1) w found w1
      → Bounded w (epochs_from s (epoch_target s finalized head) found w1).1
  after_scan w none w1 small f = from_here w w1 f.0
  after_scan w (some gap) w1 small f =
      (Keeps-bind
          (epoch_loop s (pos_part s.cfg.epochs_per_pass) 0 gap (epoch_target s finalized head)) _
          (loop-Keeps s (epoch_floor s) (epoch_target s finalized head) w
            (pos_part s.cfg.epochs_per_pass) 0 gap (omega (arith, f.1.0)) (omega (arith, f.1.1))
            (omega (arith, epoch_target-le)))
          (λ _. Keeps-pure false)).stays
        w1 (from_here w w1 f.0)

  -- If the finalized epoch and the head are fetched, and the finalized epoch and the floor are
  -- below 2^63: whether the pass returns or fails, no epoch outside of [floor, target] gets
  -- marked, no slot does, no mark is lost, and no block changes.
  pub run_epoch_pass-OnlyEpochs :
      (w : World) (m n : ℕ)
      → s.client.finalized_epoch w.calls ≡ (ok finalized, m)
      → s.client.get_head_slot m ≡ (ok head, n)
      → finalized < 2 ^ 63
      → epoch_floor s < 2 ^ 63
      → Bounded w (run_epoch_pass s w).1
  unfolding run_epoch_pass fetch first_unindexed_epoch
  run_epoch_pass-OnlyEpochs w m n f h small low =
      rw (f, h)
        (elim (Bool-cases (ltb (epoch_target s finalized head) (epoch_floor s))) [
          | inl over ↦ rw over (from_here w (at n w.db) refl)
          | inr inside ↦ rw inside (
              state-Post (Bounded w)
                ((first_unindexed s.repo epoch (epoch_floor s) (epoch_target s finalized head)
                    >>= λ first. epochs_from s (epoch_target s finalized head) first)
                  (at n w.db))
                (Post-bind
                  (Found epoch (epoch_floor s) (epoch_target s finalized head + 1) (at n w.db))
                  (λ _ w'. Bounded w w') (Bounded w)
                  (first_unindexed s.repo epoch (epoch_floor s) (epoch_target s finalized head))
                  (epochs_from s (epoch_target s finalized head)) (at n w.db)
                  (Post-weaken
                    {R = Found epoch (epoch_floor s) (epoch_target s finalized head + 1)
                      (at n w.db)}
                    {F = Bounded w}
                    (first_unindexed s.repo epoch (epoch_floor s) (epoch_target s finalized head)
                      (at n w.db))
                    (λ o w' h. h) (λ w' same. from_here w w' same)
                    (first_unindexed-Found s.repo epoch (epoch_floor s)
                      (epoch_target s finalized head) (at n w.db) low))
                  λ found w1 h.
                    Post-state (Bounded w) (epochs_from s (epoch_target s finalized head) found w1)
                      (after_scan w found w1 small h)))
        ])
