-- ===== src/Storage/Progress/Marks.antt =====
-- Which positions are marked after a call.
use pauli.Common.{ℕ, ◌≡◌, refl, true, ◌⊎◌, inl, inr, [], ◌∷◌, List, arith, if◌then◌else◌}
use pauli.Exec.Post.{Post, Post-annotate}
use pauli.Storage.{Kind, ProgressRow, Db, World, Repository, execute, query, encodes, at}
use pauli.Storage.Statements.{execute-Post, query-Post}
use pauli.Storage.Progress.{is_row, marked, upsert_progress, mark_progress, is_progress}

-- The position is marked for the kind, in the state.
abbrev pub IsMarked : World → Kind → ℕ → Type 0
IsMarked w k p = marked k p w.db.progress ≡ true

pub marked-upsert :
    (k j : Kind) (p q now : ℕ) (rows : List ProgressRow)
    → marked j q (upsert_progress k p now rows) ≡ (
        if is_row j q (record { kind = k; position = p; completed_at = now })
        then true
        else marked j q rows)
unfolding marked upsert_progress
marked-upsert k j p q now [] = refl
marked-upsert k j p q now (row ∷ rows) = ground (arith, marked-upsert k j p q now rows)

abbrev pub with_mark : Kind → ℕ → ℕ → Db → Db
with_mark k p now db = record db { progress = upsert_progress k p now db.progress }

-- What is marked in `w` is marked in `w'`, and only positions of `New` are marked there besides.
pub record Marks (New : Kind → ℕ → Type 0) (w w' : World) : Type 0 where
  pub keeps : (k : Kind) (p : ℕ) → IsMarked w k p → IsMarked w' k p
  pub adds : (k : Kind) (p : ℕ) → IsMarked w' k p → IsMarked w k p ⊎ New k p

-- Nothing is marked or unmarked between states with the same progress.
pub same-Marks :
    {New : Kind → ℕ → Type 0} (w w' : World) → w'.db.progress ≡ w.db.progress → Marks New w w'
same-Marks w w' e = record { keeps = λ k p h. rw e h; adds = λ k p h. inl (rw e at h) }

abbrev pub Only : Kind → ℕ → Kind → ℕ → Type 0
Only k p j q = (j ≡ k) × (q ≡ p)

module _ {New : Kind → ℕ → Type 0} where
  pub Marks-refl : (n : ℕ) (w : World) → Marks New w (at n w.db)
  Marks-refl n w = record { keeps = λ k p h. h; adds = λ k p h. inl h }

  pub Marks-trans : (u v w : World) → Marks New u v → Marks New v w → Marks New u w
  Marks-trans u v w a b = record {
    keeps = λ k p h. b.keeps k p (a.keeps k p h);
    adds = λ k p h. elim (b.adds k p h) [ inl old ↦ a.adds k p old | inr new ↦ inr new ];
  }

  pub Marks-weaken :
      {More : Kind → ℕ → Type 0} (u v : World)
      → ((k : Kind) (p : ℕ) → New k p → More k p)
      → Marks New u v
      → Marks More u v
  Marks-weaken u v f a = record {
    keeps = a.keeps;
    adds = λ k p h. elim (a.adds k p h) [ inl old ↦ inl old | inr new ↦ inr (f k p new) ];
  }

module _ (k : Kind) (p now n : ℕ) (w : World) where
  pub upsert-Marks : Marks (Only k p) w (at n (with_mark k p now w.db))
  upsert-Marks = record {
    keeps = λ j q h. ground (arith, marked-upsert k j p q now w.db.progress);
    adds = λ j q h. ground (arith, marked-upsert k j p q now w.db.progress);
  }

  upsert-IsMarked : IsMarked (at n (with_mark k p now w.db)) k p
  upsert-IsMarked = ground (arith, marked-upsert k k p p now w.db.progress)

-- Marking a position, whether it returns or fails, marks at most that position and loses no mark;
-- without an error the position is marked.
pub mark_progress-Post :
    (r : Repository) (k : Kind) (p : ℕ) (w : World)
    → Post
        (λ _ w'. Marks (Only k p) w w' × IsMarked w' k p)
        (λ w'. Marks (Only k p) w w')
        (mark_progress r k p w)
unfolding mark_progress
mark_progress-Post r k p w =
    Post-annotate (λ _ w'. Marks (Only k p) w w' × IsMarked w' k p) (λ w'. Marks (Only k p) w w') _
      (execute r (encodes p) (with_mark k p)) w
      (execute-Post r (encodes p) (with_mark k p) _ _ w
        (λ n now. (upsert-Marks k p now n w, upsert-IsMarked k p now n w)) (λ n. Marks-refl n w)
        (λ n now. upsert-Marks k p now n w))

-- The test answers for the state that it was made in, and changes no table.
pub is_progress-Post :
    (r : Repository) (k : Kind) (p : ℕ) (w : World)
    → Post
        (λ b w'. (w'.db ≡ w.db) × (b ≡ marked k p w.db.progress))
        (λ w'. w'.db ≡ w.db)
        (is_progress r k p w)
unfolding is_progress
is_progress-Post r k p w =
    Post-annotate (λ b w'. (w'.db ≡ w.db) × (b ≡ marked k p w.db.progress)) (λ w'. w'.db ≡ w.db) _
      (query r (encodes p) (λ db. marked k p db.progress)) w
      (query-Post r (encodes p) (λ db. marked k p db.progress) _ _ w (λ n _. (refl, refl))
        (λ n. refl))
