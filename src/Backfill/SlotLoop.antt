-- ===== src/Backfill/SlotLoop.antt =====
-- The loop of SlotPass.Run: which slots it marks, when it returns and when it fails.
use pauli.Common.{
  ℕ, zero, suc, ◌+◌, ◌%◌, ◌^◌, ◌≤◌, ◌<◌, ◌≡◌, sym, inl, inr, Bool, true, false, arith, ltb, ltb→lt,
  ltb→le, Bool-cases, if◌then◌else◌, ap, subst,
}
use pauli.Exec.{Exec, pure, ◌>>◌}
use pauli.Exec.Post.{Post, Post-bind, Post-weaken, Post-state}
use pauli.Storage.{Kind, slot, Db, World}
use pauli.Storage.Progress.{marked, is_slot_indexed, mark_slot_indexed, mark_progress, is_progress}
use pauli.Storage.Progress.Marks.{
  IsMarked, Marks, Only, Marks-refl, Marks-trans, Marks-weaken, mark_progress-Post,
  is_progress-Post, same-Marks,
}
use pauli.Indexing.Blocks.{index_block_at_slot}
use pauli.Indexing.Blocks.Outcome.{index_block-OnlyBlocksAt}
use pauli.Backfill.{SlotPass, block_indexer, visit_slot, slot_loop}

-- The slots of a range.
abbrev pub Within : Kind → ℕ → ℕ → Kind → ℕ → Type 0
Within k lo hi j p = (j ≡ k) × (lo ≤ p) × (p ≤ hi)

-- At most the slot is marked; and it is.
abbrev AtMost : ℕ → World → World → Type 0
AtMost p w w' = Marks (Only slot p) w w'

abbrev Exactly : ℕ → World → Unit {0} → World → Type 0
Exactly p w _ w' = AtMost p w w' × IsMarked w' slot p

-- The same for the rounds that are left, from the slot `lo`.
abbrev pub AtMostFrom : ℕ → ℕ → World → World → Type 0
AtMostFrom lo hi w w' = Marks (Within slot lo hi) w w'

abbrev pub ExactlyFrom : ℕ → ℕ → ℕ → World → Unit {0} → World → Type 0
ExactlyFrom lo rounds hi w _ w' =
    AtMostFrom lo hi w w' × ((p : ℕ) → lo ≤ p → p < lo + rounds → p ≤ hi → IsMarked w' slot p)

module _ (s : SlotPass) where
  abbrev index_then_mark : ℕ → Exec World (Unit {0})
  index_then_mark p = index_block_at_slot (block_indexer s) p >> mark_slot_indexed s.repo p

  index_then_mark-Post : (p : ℕ) (w : World) → Post (Exactly p w) (AtMost p w) (index_then_mark p w)
  unfolding mark_slot_indexed
  index_then_mark-Post p w =
      Post-bind (λ _ w'. AtMost p w w') (Exactly p w) (AtMost p w)
        (index_block_at_slot (block_indexer s) p) (λ _. mark_slot_indexed s.repo p) w
        (Post-state (AtMost p w) (index_block_at_slot (block_indexer s) p w)
          (same-Marks w _ (index_block-OnlyBlocksAt (block_indexer s) p w).same_progress))
        λ _ w' before.
          Post-weaken {R = Exactly p w} {F = AtMost p w} (mark_progress s.repo slot p w')
            (λ _ w'' h. (Marks-trans w w' w'' before h.0, h.1))
            (λ w'' h. Marks-trans w w' w'' before h) (mark_progress-Post s.repo slot p w')

  -- A visit marks its slot unless it fails, and marks no other.
  visit_slot-Post : (p : ℕ) (w : World) → Post (Exactly p w) (AtMost p w) (visit_slot s p w)
  unfolding visit_slot is_slot_indexed
  visit_slot-Post p w =
      Post-bind Answer (Exactly p w) (AtMost p w) (is_progress s.repo slot p)
        (λ done. if done then pure tt else index_then_mark p) w
        (Post-weaken {R = Answer} {F = AtMost p w} (is_progress s.repo slot p w) (λ b w' h. h)
          (λ w' same. same-Marks w w' (ap (λ (d : Db). d.progress) same))
          (is_progress-Post s.repo slot p w))
        after
    where
      Answer : Bool → World → Type 0
      Answer b w' = (w'.db ≡ w.db) × (b ≡ marked slot p w.db.progress)

      after :
          (b : Bool) (w' : World)
          → (w'.db ≡ w.db) × (b ≡ marked slot p w.db.progress)
          → Post (Exactly p w) (AtMost p w) ((if b then pure tt else index_then_mark p) w')
      after true w' h =
          let same : w'.db.progress ≡ w.db.progress = ap (λ (d : Db). d.progress) h.0 in
          (same-Marks w w' same, rw same (sym h.1))
      after false w' h =
          let before : AtMost p w w' = same-Marks w w' (ap (λ (d : Db). d.progress) h.0) in
          Post-weaken {R = Exactly p w} {F = AtMost p w} (index_then_mark p w')
            (λ _ w'' k. (Marks-trans w w' w'' before k.0, k.1))
            (λ w'' k. Marks-trans w w' w'' before k) (index_then_mark-Post p w')

  first_visit :
      (rounds i first target : ℕ) (w w' : World)
      → first + i ≤ target
      → AtMost (first + i) w w'
      → AtMostFrom (first + i) target w w'
  first_visit rounds i first target w w' le h =
      Marks-weaken w w' (λ k p new. (new.0, omega (arith, new.1), omega (arith, new.1))) h

  later :
      (i first target : ℕ) (w w' w'' : World)
      → AtMostFrom (first + i) target w w'
      → AtMostFrom (first + (i + 1)) target w' w''
      → AtMostFrom (first + i) target w w''
  later i first target w w' w'' a b =
      Marks-trans w w' w'' a
        (Marks-weaken w' w'' (λ k p new. (new.0, omega (arith, new.1), new.2)) b)

  join :
      (rounds i first target : ℕ) (w w' w'' : World)
      → first + i ≤ target
      → Exactly (first + i) w tt w'
      → ExactlyFrom (first + (i + 1)) rounds target w' tt w''
      → ExactlyFrom (first + i) (suc rounds) target w tt w''
  join rounds i first target w w' w'' le here rest = (
    later i first target w w' w'' (first_visit rounds i first target w w' le here.0) rest.0,
    λ p above below in_range. elim (Bool-cases (ltb (first + i) p)) [
      | inl more ↦
          let h : first + i < p = ltb→lt _ _ more in rest.1 p (omega arith) (omega arith) in_range
      | inr last ↦
          let h : p ≤ first + i = ltb→le _ _ last in
          let e : first + i ≡ p = omega arith in
          subst (IsMarked w'' slot) e (rest.0.keeps slot (first + i) here.1)
    ],
  )

  -- Of the slots of the rounds those in the range are marked, and no slot outside of the range.
  pub slot_loop-Post :
      (rounds i first target : ℕ) (w : World)
      → first + i ≤ target + 1
      → target + 1 < 2 ^ 64
      → Post
          (ExactlyFrom (first + i) rounds target w)
          (AtMostFrom (first + i) target w)
          (slot_loop s rounds i first target w)
  unfolding slot_loop
  slot_loop-Post zero i first target w le fits =
      (Marks-refl w.calls w, λ p above below inside. absurd (omega arith))
  slot_loop-Post (suc rounds) i first target w le fits =
      let exact : (first + i) % 2 ^ 64 ≡ first + i = omega arith in
      rw exact (elim (Bool-cases (ltb target (first + i))) [
        | inl over ↦ rw over (
          Marks-refl w.calls w,
          λ p above below in_range.
              let h : target < first + i = ltb→lt _ _ over in absurd (omega arith),
        )
        | inr inside ↦ rw inside (
            Post-bind (Exactly (first + i) w) (ExactlyFrom (first + i) (suc rounds) target w)
              (AtMostFrom (first + i) target w) (visit_slot s (first + i))
              (λ _. slot_loop s rounds (i + 1) first target) w
              (Post-weaken {R = Exactly (first + i) w} {F = AtMostFrom (first + i) target w}
                (visit_slot s (first + i) w) (λ _ w' h. h)
                (λ w' h. first_visit rounds i first target w w' (ltb→le _ _ inside) h)
                (visit_slot-Post (first + i) w))
              λ _ w' here.
                Post-weaken {R = ExactlyFrom (first + i) (suc rounds) target w}
                  {F = AtMostFrom (first + i) target w} (slot_loop s rounds (i + 1) first target w')
                  (λ _ w'' h. join rounds i first target w w' w'' (ltb→le _ _ inside) here h)
                  (λ w'' h.
                    later i first target w w' w''
                      (first_visit rounds i first target w w' (ltb→le _ _ inside) here.0) h)
                  (slot_loop-Post rounds (i + 1) first target w'
                    (let h : first + i ≤ target = ltb→le _ _ inside in omega arith) fits))
      ])
