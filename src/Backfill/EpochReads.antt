-- ===== src/Backfill/EpochReads.antt =====
-- EpochPass.Run and the scans of both passes, in the rules for what the tables keep.
use pauli.Common.{
  ℕ, ◌+◌, ◌^◌, ◌≡◌, sym, ◌∙◌, true, false, Option, none, some, Bool-cases, inl, inr, ltb, zero, suc,
  ◌%◌,
}
use pauli.Exec.{Exec, pure}
use pauli.Storage.{Kind, slot, epoch, World, Db, Repository}
use pauli.Storage.Keeps.{Keeps, Keeps-bind, Keeps-if, Keeps-pure, keeps_rules}
use pauli.Storage.Progress.{
  marked, first_unindexed, first_unindexed_epoch, chunk_loop, chunk_query, chunk_end,
  is_epoch_indexed, is_progress,
}
use pauli.Indexing.{fetch}
use pauli.Indexing.Calls.{Keeps-fetch}
use pauli.Indexing.Epochs.{EpochIndexer, index_epoch_at_boundary}
use pauli.Indexing.Epochs.Outcome.{index_epoch_at_boundary-OnlyEpoch}
use pauli.Backfill.{
  EpochPass, visit_epoch, epoch_loop, epochs_from, epoch_target, epoch_floor, run_epoch_pass,
}

-- The scan for a gap changes no table.
module _ (r : Repository) (k : Kind) (P : Db → Type 0) where
  found-Keeps :
      (rest : Exec World (Option ℕ)) (found : Option ℕ)
      → Keeps P rest
      → Keeps P (elim found as (λ (o : Option ℕ). Exec World (Option ℕ)) [
        | some q ↦ pure (some q)
        | none ↦ rest
      ])
  found-Keeps rest (some q) h = Keeps-pure (some q)
  found-Keeps rest none h = h

  chunk-Keeps : (fuel start to : ℕ) → Keeps P (chunk_loop r fuel k start to)
  unfolding chunk_loop
  chunk-Keeps zero start to = Keeps-pure none
  chunk-Keeps (suc fuel) start to = Keeps-if (ltb to start) _ _ (Keeps-pure none) (
      Keeps-bind (chunk_query r k start (chunk_end r start to)) _ (search keeps_rules)
        (λ found. found-Keeps _ found (chunk-Keeps fuel ((chunk_end r start to + 1) % 2 ^ 64) to)))

  pub scan-Keeps : (from to : ℕ) → Keeps P (first_unindexed r k from to)
  unfolding first_unindexed
  scan-Keeps from to = Keeps-if (ltb to from) _ _ (Keeps-pure none) (chunk-Keeps _ from to)

-- An epoch pass keeps what indexing an epoch keeps.
module _ (s : EpochPass) (P : Db → Type 0)
    (index : (idx : EpochIndexer) (e : ℕ) → Keeps P (index_epoch_at_boundary idx e)) where
  test-Keeps : (e : ℕ) → Keeps P (is_epoch_indexed s.repo e)
  unfolding is_epoch_indexed is_progress
  test-Keeps e = search keeps_rules

  visit-Keeps : (e : ℕ) → Keeps P (visit_epoch s e)
  unfolding visit_epoch
  visit-Keeps e = Keeps-bind (is_epoch_indexed s.repo e) _ (test-Keeps e) (λ done.
      Keeps-if done _ _ (Keeps-pure tt) (
        Keeps-bind (index_epoch_at_boundary (record { client = s.client; repo = s.repo }) e) _
          (index _ e)
          (λ _. Keeps-bind (is_epoch_indexed s.repo e) _ (test-Keeps e) (λ _. Keeps-pure tt))))

  pub loop-Keeps : (rounds i first hi : ℕ) → Keeps P (epoch_loop s rounds i first hi)
  unfolding epoch_loop
  loop-Keeps zero i first hi = Keeps-pure tt
  loop-Keeps (suc rounds) i first hi =
      Keeps-if (ltb hi ((first + i) % 2 ^ 64)) _ _ (Keeps-pure tt) (
        Keeps-bind (visit_epoch s ((first + i) % 2 ^ 64))
          (λ _. epoch_loop s rounds (i + 1) first hi) (visit-Keeps _)
          (λ _. loop-Keeps rounds (i + 1) first hi))

  epoch_scan-Keeps : (from to : ℕ) → Keeps P (first_unindexed_epoch s.repo from to)
  unfolding first_unindexed_epoch
  epoch_scan-Keeps from to = scan-Keeps s.repo epoch P from to

  epochs_from-Keeps : (target : ℕ) (found : Option ℕ) → Keeps P (epochs_from s target found)
  epochs_from-Keeps target none = Keeps-pure false
  epochs_from-Keeps target (some first) =
      Keeps-bind (epoch_loop s _ 0 first target) _ (loop-Keeps _ 0 first target)
        (λ _. Keeps-pure false)

  pub run_epoch_pass-Keeps : Keeps P (run_epoch_pass s)
  unfolding run_epoch_pass
  run_epoch_pass-Keeps =
      Keeps-bind (fetch s.client.finalized_epoch) _ (Keeps-fetch s.client.finalized_epoch)
        (λ finalized.
          Keeps-bind (fetch s.client.get_head_slot) _ (Keeps-fetch s.client.get_head_slot) (λ head.
            Keeps-if (ltb (epoch_target s finalized head) (epoch_floor s)) _ _ (Keeps-pure false) (
              Keeps-bind
                (first_unindexed_epoch s.repo (epoch_floor s) (epoch_target s finalized head)) _
                (epoch_scan-Keeps _ _) (λ found. epochs_from-Keeps _ found))))

-- An epoch pass marks no slot, and loses no mark of one.
module _ (s : EpochPass) (p : ℕ) where
  index-Keeps :
      (idx : EpochIndexer) (e : ℕ)
      → Keeps (λ d. marked slot p d.progress ≡ false) (index_epoch_at_boundary idx e)
  index-Keeps idx e = record {
    stays = λ w h.
        let m = (index_epoch_at_boundary-OnlyEpoch idx e w).0 in
        elim (Bool-cases (marked slot p (index_epoch_at_boundary idx e w).1.db.progress)) [
          | inl now ↦ elim (m.adds slot p now) [
            | inl before ↦ absurd (cc (sym before ∙ h))
            | inr new ↦ absurd (cc new.0)
          ]
          | inr still ↦ still
        ];
  }

  pub run_epoch_pass-Unmarked : Keeps (λ d. marked slot p d.progress ≡ false) (run_epoch_pass s)
  run_epoch_pass-Unmarked =
      run_epoch_pass-Keeps s (λ d. marked slot p d.progress ≡ false) index-Keeps

  pub run_epoch_pass-Marked : Keeps (λ d. marked slot p d.progress ≡ true) (run_epoch_pass s)
  run_epoch_pass-Marked =
      run_epoch_pass-Keeps s (λ d. marked slot p d.progress ≡ true)
        (λ idx e. record {
          stays = λ w h. (index_epoch_at_boundary-OnlyEpoch idx e w).0.keeps slot p h;
        })
