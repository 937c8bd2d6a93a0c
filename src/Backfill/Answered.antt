-- ===== src/Backfill/Answered.antt =====
-- IsEpochIndexed and MarkEpochIndexed where the repository answers.
use pauli.Common.{ℕ, ◌^◌, ◌<◌, ◌≡◌, Bool, lt→ltb}
use pauli.Exec.Post.{Post, Post-weaken}
use pauli.Exec.Returns.{IsOk, IsOk-annotate, IsOk-Post}
use pauli.Storage.{epoch, answered, encodes, query, execute, Repository, World}
use pauli.Storage.Progress.{
  marked, is_epoch_indexed, is_progress, mark_epoch_indexed, mark_progress,
}
use pauli.Storage.Progress.Marks.{IsMarked, Marks, Only, is_progress-Post, mark_progress-Post}
use pauli.Backfill.Returns.{query-IsOk, execute-IsOk}

module _ (repo : Repository) (live : (n : ℕ) → repo.fate n ≡ answered) where
  abbrev pub Answer : ℕ → World → Bool → World → Type 0
  Answer e w b w' = (w'.db ≡ w.db) × (b ≡ marked epoch e w.db.progress)

  pub test-Answer :
      (e : ℕ) (w : World) → e < 2 ^ 63 → Post (Answer e w) (λ _. ⊥) (is_epoch_indexed repo e w)
  unfolding is_epoch_indexed is_progress
  test-Answer e w small =
      IsOk-Post (Answer e w) (λ w'. w'.db ≡ w.db) (is_progress repo epoch e w) (test-IsOk e w small)
        (is_progress-Post repo epoch e w)
    where
      test-IsOk : (e : ℕ) (w : World) → e < 2 ^ 63 → IsOk (is_progress repo epoch e w)
      test-IsOk e w small =
          IsOk-annotate _ (query repo (encodes e) _) w
            (query-IsOk repo live (encodes e) _ w (lt→ltb _ _ small))

  abbrev pub Marked : ℕ → Unit {0} → World → Type 0
  Marked e _ w' = IsMarked w' epoch e

  pub mark_epoch_indexed-Marked :
      (e : ℕ) (w : World) → e < 2 ^ 63 → Post (Marked e) (λ _. ⊥) (mark_epoch_indexed repo e w)
  unfolding mark_epoch_indexed mark_progress
  mark_epoch_indexed-Marked e w small =
      Post-weaken {R = Marked e} {F = λ _. ⊥} (mark_progress repo epoch e w) (λ u w' h. h.1)
        (λ w' h. h)
        (IsOk-Post (λ _ w'. Marks (Only epoch e) w w' × IsMarked w' epoch e) _
          (mark_progress repo epoch e w)
          (IsOk-annotate _ (execute repo (encodes e) _) w
            (execute-IsOk repo live (encodes e) _ w (lt→ltb _ _ small)))
          (mark_progress-Post repo epoch e w))
