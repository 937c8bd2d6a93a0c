-- ===== src/Backfill/EpochMarks.antt =====
-- EpochPass.Run against a server that answers, where the indexing of an epoch marks it.
use pauli.Common.{
  ℕ, zero, suc, ◌+◌, ◌%◌, ◌^◌, ◌≤◌, ◌<◌, ◌≡◌, sym, inl, inr, Bool, true, false, Option, none, some,
  arith, ◌∙◌, ltb, ltb→lt, ltb→le, Bool-cases, if◌then◌else◌, subst,
}
use pauli.Common.Int.{pos_part}
use pauli.Exec.{ok, pure, ◌>>◌}
use pauli.Exec.Post.{Post, Post-bind, Post-weaken, Post-and}
use pauli.Exec.Returns.{IsOk-Post}
use pauli.Storage.{epoch, answered, Db, World, at}
use pauli.Storage.Keeps.{Keeps}
use pauli.Storage.Progress.{marked, is_epoch_indexed, first_unindexed, first_unindexed_epoch}
use pauli.Storage.Progress.Marks.{IsMarked}
use pauli.Storage.Progress.Gaps.{AllMarked, IsLeastGap, Found, first_unindexed-Found}
use pauli.Indexing.{fetch}
use pauli.Indexing.Epochs.{EpochIndexer, index_epoch_at_boundary}
use pauli.Indexing.Epochs.Outcome.{index_epoch_at_boundary-OnlyEpoch}
use pauli.Backfill.{
  EpochPass, epoch_target, epoch_floor, visit_epoch, epoch_loop, epochs_from, run_epoch_pass,
}
use pauli.Backfill.Answered.{Answer, Marked, test-Answer}
use pauli.Backfill.EpochReads.{loop-Keeps}
use pauli.Backfill.Returns.{first_unindexed-IsOk}

-- The indexer of an epoch pass.
abbrev pub epoch_indexer : EpochPass → EpochIndexer
epoch_indexer s = record { client = s.client; repo = s.repo }

-- The first epochs from `lo` are marked, up to `hi`.
abbrev pub Filled : ℕ → ℕ → ℕ → World → Type 0
Filled lo rounds hi w = (p : ℕ) → lo ≤ p → p < lo + rounds → p ≤ hi → IsMarked w epoch p

-- If the first `k` epochs from the floor were marked, so are the next ones up to the target.
abbrev pub Grows : EpochPass → ℕ → World → Bool → World → Type 0
Grows s target w _ w' =
    (k : ℕ)
    → AllMarked epoch w.db.progress (epoch_floor s) (epoch_floor s + k)
    → Filled (epoch_floor s) (k + pos_part s.cfg.epochs_per_pass) target w'

module _ (s : EpochPass) (live : (n : ℕ) → s.repo.fate n ≡ answered)
    (indexes : (e : ℕ) (w : World)
      → e < 2 ^ 63
      → Post
          (λ _ w'. IsMarked w' epoch e)
          (λ _. ⊥)
          (index_epoch_at_boundary (epoch_indexer s) e w)) where
  -- What is marked stays so.
  abbrev Stays : World → Db → Type 0
  Stays w d = (p : ℕ) → IsMarked w epoch p → marked epoch p d.progress ≡ true

  loop-Stays :
      (w : World) (rounds i first hi : ℕ) → Keeps (Stays w) (epoch_loop s rounds i first hi)
  loop-Stays w rounds i first hi =
      loop-Keeps s (Stays w)
        (λ idx e. record {
          stays = λ v h p k. (index_epoch_at_boundary-OnlyEpoch idx e v).0.keeps epoch p (h p k);
        })
        rounds i first hi

  visit_epoch-Marked :
      (e : ℕ) (w : World) → e < 2 ^ 63 → Post (Marked s.repo live e) (λ _. ⊥) (visit_epoch s e w)
  unfolding visit_epoch
  visit_epoch-Marked e w small =
      Post-bind (Answer s.repo live e w) (Marked s.repo live e) (λ _. ⊥) (is_epoch_indexed s.repo e)
        _ w (test-Answer s.repo live e w small) after
    where
      after :
          (b : Bool) (w' : World)
          → Answer s.repo live e w b w'
          → Post
              (Marked s.repo live e)
              (λ _. ⊥)
              ((if b then pure tt else (do
                index_epoch_at_boundary (epoch_indexer s) e
                is_epoch_indexed s.repo e
                pure tt))
                w')
      after true w' h = subst (λ (d : Db). marked epoch e d.progress ≡ true) (sym h.0) (sym h.1)
      after false w' h =
          Post-bind (Marked s.repo live e) (Marked s.repo live e) (λ _. ⊥)
            (index_epoch_at_boundary (epoch_indexer s) e) _ w' (indexes e w' small)
            (λ _ w1 k.
              Post-bind (Answer s.repo live e w1) (Marked s.repo live e) (λ _. ⊥)
                (is_epoch_indexed s.repo e) _ w1 (test-Answer s.repo live e w1 small)
                (λ b w2 q. subst (λ (d : Db). marked epoch e d.progress ≡ true) (sym q.0) k))

  filled :
      (lo rounds hi : ℕ) (w1 w2 : World)
      → IsMarked w1 epoch lo
      → Filled (lo + 1) rounds hi w2
      → Stays w1 w2.db
      → Filled lo (suc rounds) hi w2
  filled lo rounds hi w1 w2 here rest stays p above below inside = elim (Bool-cases (ltb lo p)) [
    | inl more ↦ let h : lo < p = ltb→lt _ _ more in rest p (omega arith) (omega arith) inside
    | inr last ↦
        let h : p ≤ lo = ltb→le _ _ last in
        let e : lo ≡ p = omega arith in subst (IsMarked w2 epoch) e (stays lo here)
  ]

  epoch_loop-Filled :
      (rounds i first hi : ℕ) (w : World)
      → first + i ≤ hi + 1
      → hi < 2 ^ 63
      → Post (λ _ w'. Filled (first + i) rounds hi w') (λ _. ⊥) (epoch_loop s rounds i first hi w)
  unfolding epoch_loop
  epoch_loop-Filled zero i first hi w le small = λ p above below inside. absurd (omega arith)
  epoch_loop-Filled (suc rounds) i first hi w le small =
      let exact : (first + i) % 2 ^ 64 ≡ first + i = omega arith in
      rw exact (elim (Bool-cases (ltb hi (first + i))) [
        | inl over ↦ rw over (λ p above below inside.
            let h : hi < first + i = ltb→lt _ _ over in absurd (omega arith))
        | inr within ↦
            let h : first + i ≤ hi = ltb→le _ _ within in
            rw within (
              Post-bind (Marked s.repo live (first + i))
                (λ _ w'. Filled (first + i) (suc rounds) hi w') (λ _. ⊥) (visit_epoch s (first + i))
                (λ _. epoch_loop s rounds (i + 1) first hi) w
                (visit_epoch-Marked (first + i) w (omega arith))
                (λ _ w1 here.
                  Post-weaken {R = λ _ w'. Filled (first + i) (suc rounds) hi w'} {F = λ _. ⊥}
                    (epoch_loop s rounds (i + 1) first hi w1)
                    (λ _ w2 k.
                      filled (first + i) rounds hi w1 w2 here
                        (λ p above below inside. k.0 p (omega arith) (omega arith) inside) k.1)
                    (λ w2 k. k)
                    (Post-and (λ _ w'. Filled (first + (i + 1)) rounds hi w') (λ _. ⊥)
                      (λ w'. Stays w1 w'.db) (epoch_loop s rounds (i + 1) first hi w1)
                      (epoch_loop-Filled rounds (i + 1) first hi w1 (omega arith) small)
                      ((loop-Stays w1 rounds (i + 1) first hi).stays w1 (λ p k. k)))))
      ])

  beyond :
      (w : World) (gap target k : ℕ)
      → IsLeastGap epoch w.db.progress (epoch_floor s) (target + 1) (some gap)
      → AllMarked epoch w.db.progress (epoch_floor s) (epoch_floor s + k)
      → epoch_floor s + k ≤ gap
  beyond w gap target k f h = elim (Bool-cases (ltb gap (epoch_floor s + k))) [
    | inl before ↦ cc (sym (h gap f.0 (ltb→lt _ _ before)) ∙ f.2)
    | inr far ↦ ltb→le _ _ far
  ]

  after_scan :
      (w : World) (target : ℕ) (found : Option ℕ) (w1 : World)
      → target < 2 ^ 63
      → Found epoch (epoch_floor s) (target + 1) w found w1
      → Post (Grows s target w) (λ _. ⊥) (epochs_from s target found w1)
  after_scan w target none w1 small f = λ k before p above below inside.
      subst (λ (d : Db). marked epoch p d.progress ≡ true) (sym f.0) (f.1 p above (omega arith))
  after_scan w target (some gap) w1 small f =
      Post-bind (λ _ w'. Filled (gap + 0) size target w' × Stays w1 w'.db) (Grows s target w)
        (λ _. ⊥) (epoch_loop s size 0 gap target) (λ _. pure false) w1
        (Post-and (λ _ w'. Filled (gap + 0) size target w') (λ _. ⊥) (λ w'. Stays w1 w'.db)
          (epoch_loop s size 0 gap target w1)
          (epoch_loop-Filled size 0 gap target w1 (omega (arith, f.1.1)) small)
          ((loop-Stays w1 size 0 gap target).stays w1 (λ p k. k)))
        (λ _ w' h k before p above below inside. elim (Bool-cases (ltb p gap)) [
          | inl early ↦ h.1 p (
              subst (λ (d : Db). marked epoch p d.progress ≡ true) (sym f.0)
                (f.1.3 p above (ltb→lt _ _ early)))
          | inr late ↦
              let le : gap ≤ p = ltb→le _ _ late in
              h.0 p (omega arith) (omega (arith, beyond w gap target k f.1 before)) inside
        ])
    where
      size : ℕ
      size = pos_part s.cfg.epochs_per_pass

  -- If the finalized epoch and the head are fetched, with a target and a floor below 2^63, the pass
  -- returns, and marks the next `epochs_per_pass` epochs behind those that were marked from the
  -- floor on, up to the target.
  pub run_epoch_pass-Grows :
      (finalized head m n : ℕ) (w : World)
      → s.client.finalized_epoch w.calls ≡ (ok finalized, m)
      → s.client.get_head_slot m ≡ (ok head, n)
      → epoch_target s finalized head < 2 ^ 63
      → epoch_floor s < 2 ^ 63
      → Post (Grows s (epoch_target s finalized head) w) (λ _. ⊥) (run_epoch_pass s w)
  unfolding run_epoch_pass fetch first_unindexed_epoch
  run_epoch_pass-Grows finalized head m n w f h small low =
      rw (f, h)
        (elim (Bool-cases (ltb (epoch_target s finalized head) (epoch_floor s))) [
          | inl over ↦ rw over (λ k before p above below inside.
              let o : epoch_target s finalized head < epoch_floor s = ltb→lt _ _ over in
              absurd (omega arith))
          | inr inside ↦ rw inside (
              Post-bind
                (Found epoch (epoch_floor s) (epoch_target s finalized head + 1) (at n w.db))
                (Grows s (epoch_target s finalized head) w) (λ _. ⊥)
                (first_unindexed s.repo epoch (epoch_floor s) (epoch_target s finalized head))
                (epochs_from s (epoch_target s finalized head)) (at n w.db)
                (IsOk-Post
                  (Found epoch (epoch_floor s) (epoch_target s finalized head + 1) (at n w.db)) _
                  (first_unindexed s.repo epoch (epoch_floor s) (epoch_target s finalized head)
                    (at n w.db))
                  (first_unindexed-IsOk s.repo live epoch (epoch_floor s)
                    (epoch_target s finalized head) (at n w.db) small)
                  (first_unindexed-Found s.repo epoch (epoch_floor s)
                    (epoch_target s finalized head) (at n w.db) low))
                (λ found w1 g.
                  after_scan (at n w.db) (epoch_target s finalized head) found w1 small g))
        ])
