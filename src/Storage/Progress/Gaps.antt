-- ===== src/Storage/Progress/Gaps.antt =====
-- What the chunked scan of FirstUnindexedSlot and FirstUnindexedEpoch finds.
use pauli.Common.{
  ℕ, zero, suc, ◌+◌, ◌-◌, ◌*◌, ◌/◌, ◌%◌, ◌^◌, ◌≤◌, ◌<◌, ◌≡◌, refl, sym, subst, ◌∙◌, true, false,
  ◌&&◌, Option, none, some, inl, inr, ◌⊎◌, arith, ltb, ltb→lt, ltb→le, Bool-cases, List,
}
use pauli.Exec.{Exec, pure, ◌>>=◌}
use pauli.Exec.Post.{Post, Post-annotate, Post-bind, Post-weaken}
use pauli.Storage.{Kind, ProgressRow, Db, World, Repository, query, encodes}
use pauli.Storage.Statements.{query-Post}
use pauli.Storage.Progress.{
  marked, min_unmarked, unindexed_slot_chunk_size, chunk_end, chunk_query, chunk_loop,
  first_unindexed,
}

-- Every position from `lo` up to, and without, `hi` has a row.
abbrev pub AllMarked : Kind → List ProgressRow → ℕ → ℕ → Type 0
AllMarked k rows lo hi = (p : ℕ) → lo ≤ p → p < hi → marked k p rows ≡ true

-- `found` is the least position of [lo, hi) without a row; `none` if each has one.
abbrev pub IsLeastGap : Kind → List ProgressRow → ℕ → ℕ → Option ℕ → Type 0
IsLeastGap k rows lo hi none = AllMarked k rows lo hi
IsLeastGap k rows lo hi (some q) =
    (lo ≤ q) × (q < hi) × (marked k q rows ≡ false) × AllMarked k rows lo q

module _ (k : Kind) (rows : List ProgressRow) where
  AllMarked-step :
      (lo hi : ℕ) → marked k lo rows ≡ true → AllMarked k rows (lo + 1) hi → AllMarked k rows lo hi
  AllMarked-step lo hi here later p above below = elim (Bool-cases (ltb lo p)) [
    | inl more ↦ later p (let h : lo < p = ltb→lt lo p more in omega arith) below
    | inr last ↦
        let h : p ≤ lo = ltb→le lo p last in
        let e : p ≡ lo = omega arith in subst (λ q. marked k q rows ≡ true) (sym e) here
  ]

  AllMarked-join :
      (lo mid hi : ℕ) → AllMarked k rows lo mid → AllMarked k rows mid hi → AllMarked k rows lo hi
  AllMarked-join lo mid hi left right p above below = elim (Bool-cases (ltb p mid)) [
    | inl early ↦ left p above (ltb→lt p mid early)
    | inr late ↦ right p (ltb→le p mid late) below
  ]

  IsLeastGap-step :
      (lo hi : ℕ) (found : Option ℕ)
      → marked k lo rows ≡ true
      → IsLeastGap k rows (lo + 1) hi found
      → IsLeastGap k rows lo hi found
  IsLeastGap-step lo hi none here g = AllMarked-step lo hi here g
  IsLeastGap-step lo hi (some q) here g =
      (omega (arith, g.0), g.1, g.2, AllMarked-step lo q here g.3)

  IsLeastGap-join :
      (lo mid hi : ℕ) (found : Option ℕ)
      → lo ≤ mid
      → AllMarked k rows lo mid
      → IsLeastGap k rows mid hi found
      → IsLeastGap k rows lo hi found
  IsLeastGap-join lo mid hi none le left g = AllMarked-join lo mid hi left g
  IsLeastGap-join lo mid hi (some q) le left g =
      (omega (arith, g.0), g.1, g.2, AllMarked-join lo mid q left g.3)

  IsLeastGap-widen :
      (lo mid hi q : ℕ)
      → mid ≤ hi
      → IsLeastGap k rows lo mid (some q)
      → IsLeastGap k rows lo hi (some q)
  IsLeastGap-widen lo mid hi q le g = (g.0, omega (arith, g.1), g.2, g.3)

  -- The query of one chunk.
  min_unmarked-IsLeastGap :
      (n start hi : ℕ) → start + n ≡ hi → IsLeastGap k rows start hi (min_unmarked k n start rows)
  unfolding min_unmarked
  min_unmarked-IsLeastGap zero start hi e = λ p above below. absurd (omega arith)
  min_unmarked-IsLeastGap (suc n) start hi e = elim (Bool-cases (marked k start rows)) [
    | inl here ↦ rw here (
        IsLeastGap-step start hi (min_unmarked k n (start + 1) rows) here
          (min_unmarked-IsLeastGap n (start + 1) hi (omega arith)))
    | inr gap ↦ rw gap (omega arith, omega arith, gap, λ p above below. absurd (omega arith))
  ]

-- What the scan returns, and that it changes no table.
abbrev pub Found : Kind → ℕ → ℕ → World → Option ℕ → World → Type 0
Found k lo hi w found w' = (w'.db ≡ w.db) × IsLeastGap k w.db.progress lo hi found

module _ (r : Repository) (k : Kind) where
  chunk_query-Found :
      (start end : ℕ) (w : World)
      → start ≤ end
      → Post
          (λ o w'. Found k start (end + 1) w o w' × (end < 2 ^ 63))
          (λ w'. w'.db ≡ w.db)
          (chunk_query r k start end w)
  chunk_query-Found start end w le =
      Post-annotate (λ o w'. Found k start (end + 1) w o w' × (end < 2 ^ 63)) (λ w'. w'.db ≡ w.db) _
        (query r (encodes start && encodes end)
          (λ db. min_unmarked k (end + 1 - start) start db.progress))
        w
        (query-Post r (encodes start && encodes end) _ _ _ w
          (λ n fits. (
            (
              refl,
              min_unmarked-IsLeastGap k w.db.progress (end + 1 - start) start (end + 1)
                  (omega arith),
            ),
            ground arith,
          ))
          (λ n. refl))

  -- The scan goes on behind a chunk without a gap.
  Found-step :
      (start mid to : ℕ) (w w' : World)
      → start ≤ mid + 1
      → Found k start (mid + 1) w none w'
      → (o : Option ℕ) (w'' : World) → Found k (mid + 1) (to + 1) w' o w''
      → Found k start (to + 1) w o w''
  Found-step start mid to w w' le (same, left) o w'' (same', right) = (
    same' ∙ same,
    IsLeastGap-join k w.db.progress start (mid + 1) (to + 1) o le left
        (subst (λ (d : Db). IsLeastGap k d.progress (mid + 1) (to + 1) o) same right),
  )

  chunk_end_bounds :
      (start to : ℕ)
      → start < 2 ^ 63 + 1
      → start ≤ to
      → (start ≤ chunk_end r start to)
        × (chunk_end r start to ≤ to)
        × ((chunk_end r start to ≡ to) ⊎ (chunk_end r start to ≡ start + 8191))
  chunk_end_bounds start to small le = ground arith

  chunk_step :
      (fuel start to end : ℕ) (w : World)
      → start ≤ end + 1
      → start ≤ end
      → end ≤ to
      → ((w' : World)
          → end < 2 ^ 63
          → Post
              (Found k (end + 1) (to + 1) w')
              (λ w''. w''.db ≡ w'.db)
              (chunk_loop r fuel k (end + 1) to w'))
      → Post
          (Found k start (to + 1) w)
          (λ w'. w'.db ≡ w.db)
          ((chunk_query r k start end >>= λ found. elim found [
            | some p ↦ pure (some p)
            | none ↦ chunk_loop r fuel k ((end + 1) % 2 ^ 64) to
          ])
            w)
  chunk_step fuel start to end w le le' le'' ih =
      Post-bind (λ o w'. Found k start (end + 1) w o w' × (end < 2 ^ 63)) _ _
        (chunk_query r k start end) _ w (chunk_query-Found start end w le') after
    where
      after :
          (found : Option ℕ) (w' : World)
          → Found k start (end + 1) w found w' × (end < 2 ^ 63)
          → Post
              (Found k start (to + 1) w)
              (λ w''. w''.db ≡ w.db)
              ((elim found as (λ (o : Option ℕ). Exec World (Option ℕ)) [
                | some p ↦ pure (some p)
                | none ↦ chunk_loop r fuel k ((end + 1) % 2 ^ 64) to
              ])
                w')
      after (some q) w' h =
          (h.0.0, IsLeastGap-widen k w.db.progress start (end + 1) (to + 1) q (omega arith) h.0.1)
      after none w' h =
          let e : (end + 1) % 2 ^ 64 ≡ end + 1 = omega (arith, h.1) in
          rw e (
            Post-weaken (chunk_loop r fuel k (end + 1) to w') (Found-step start end to w w' le h.0)
              (λ w'' same. same ∙ h.0.0) (ih w' h.1))

  chunk_loop-Found :
      (fuel start to : ℕ) (w : World)
      → start < 2 ^ 63 + 1
      → to + 1 ≤ start + fuel * unindexed_slot_chunk_size
      → Post (Found k start (to + 1) w) (λ w'. w'.db ≡ w.db) (chunk_loop r fuel k start to w)
  unfolding chunk_loop
  chunk_loop-Found zero start to w small enough = (refl, λ p above below. absurd (omega arith))
  chunk_loop-Found (suc fuel) start to w small enough = elim (Bool-cases (ltb to start)) [
    | inl over ↦
        rw over
          (refl, λ p above below. let h : to < start = ltb→lt to start over in absurd (omega arith))
    | inr inside ↦
        let end = chunk_end r start to in
        let bounds = chunk_end_bounds start to small (ltb→le to start inside) in
        rw inside (
          chunk_step fuel start to end w (omega (arith, bounds.0)) (bounds.0) bounds.1 (λ w' fits.
            chunk_loop-Found fuel (end + 1) to w' (omega arith) (omega (arith, bounds.2))))
  ]

  -- From a position below 2^63: a scan that returns no error gives the least position of [from,
  -- to] without a row, or `none` if each has one; no table changes, also where it fails.
  pub first_unindexed-Found :
      (from to : ℕ) (w : World)
      → from < 2 ^ 63
      → Post (Found k from (to + 1) w) (λ w'. w'.db ≡ w.db) (first_unindexed r k from to w)
  unfolding first_unindexed
  first_unindexed-Found from to w small = elim (Bool-cases (ltb to from)) [
    | inl over ↦
        rw over
          (refl, λ p above below. let h : to < from = ltb→lt to from over in absurd (omega arith))
    | inr inside ↦ rw inside (
        chunk_loop-Found (to / unindexed_slot_chunk_size + 1) from to w (omega arith) (omega arith))
  ]
