-- ===== src/Backfill/Slots.antt =====
-- SlotPass.Run: which slots a pass marks.
use pauli.Common.{
  ℕ, ◌+◌, ◌^◌, ◌≤◌, ◌<◌, ◌≡◌, refl, sym, inl, inr, Bool, false, Option, none, some, arith, ltb,
  ltb→lt, ltb→le, Bool-cases, ap, ◌∙◌,
}
use pauli.Common.Int.{pos_part}
use pauli.Exec.{ok, pure}
use pauli.Exec.Post.{Post, Post-bind, Post-weaken}
use pauli.Storage.{slot, Db, World, at}
use pauli.Storage.Progress.{first_unindexed, first_unindexed_slot}
use pauli.Storage.Progress.Marks.{same-Marks, IsMarked, Marks-trans, Marks-weaken}
use pauli.Storage.Progress.Gaps.{AllMarked, IsLeastGap, Found, first_unindexed-Found}
use pauli.Indexing.{fetch}
use pauli.Backfill.{
  SlotPass, slot_target, slot_floor, slot_loop, slots_from, run_slot_pass, behind_head, capped,
}
use pauli.Backfill.SlotLoop.{AtMostFrom, ExactlyFrom, slot_loop-Post}

-- If the first `k` slots from the floor were marked, so are the next `rounds` up to the target.
abbrev pub Advances : ℕ → ℕ → ℕ → World → World → Type 0
Advances floor target rounds w w' =
    (k : ℕ)
    → AllMarked slot w.db.progress floor (floor + k)
    → (p : ℕ) → floor ≤ p
    → p < floor + k + rounds
    → p ≤ target
    → IsMarked w' slot p

module _ (s : SlotPass) (head : ℕ) where
  abbrev pub rounds : ℕ
  rounds = pos_part s.cfg.slots_per_pass

  -- A pass that returns.
  abbrev pub Passed : World → Bool → World → Type 0
  Passed w enqueue w' =
      (enqueue ≡ false)
      × AtMostFrom (slot_floor s) (slot_target s head) w w'
      × Advances (slot_floor s) (slot_target s head) rounds w w'

  -- A pass that fails.
  abbrev pub Failed : World → World → Type 0
  Failed w w' = AtMostFrom (slot_floor s) (slot_target s head) w w'

  target-le-head : slot_target s head ≤ head
  target-le-head = go s.end_slot_override
    where
      go : (o : Option ℕ) → capped o (behind_head head s.cfg.lag_behind_head) ≤ head
      go none = ground arith
      go (some o) = ground arith

  -- The least gap lies behind the first `k` marked slots.
  gap-beyond :
      (w : World) (gap hi k : ℕ)
      → IsLeastGap slot w.db.progress (slot_floor s) hi (some gap)
      → AllMarked slot w.db.progress (slot_floor s) (slot_floor s + k)
      → slot_floor s + k ≤ gap
  gap-beyond w gap hi k g h = elim (Bool-cases (ltb gap (slot_floor s + k))) [
    | inl before ↦ cc (sym (h gap g.0 (ltb→lt _ _ before)) ∙ g.2)
    | inr beyond ↦ ltb→le _ _ beyond
  ]

  loop-moved :
      (gap : ℕ) (w w1 w' : World)
      → Found slot (slot_floor s) (slot_target s head + 1) w (some gap) w1
      → AtMostFrom (gap + 0) (slot_target s head) w1 w'
      → Failed w w'
  loop-moved gap w w1 w' found h =
      Marks-trans w w1 w' (same-Marks w w1 (ap (λ (d : Db). d.progress) found.0))
        (Marks-weaken w1 w' (λ k p new. (new.0, omega (arith, new.1, found.1.0), new.2)) h)

  loop-Passed :
      (gap : ℕ) (w w1 w' : World)
      → Found slot (slot_floor s) (slot_target s head + 1) w (some gap) w1
      → ExactlyFrom (gap + 0) rounds (slot_target s head) w1 tt w'
      → Passed w false w'
  loop-Passed gap w w1 w' found h = (
    refl,
    moved,
    λ k before p above below inside. elim (Bool-cases (ltb p gap)) [
      | inl early ↦ moved.keeps slot p (found.1.3 p above (ltb→lt _ _ early))
      | inr late ↦
          let le : gap ≤ p = ltb→le _ _ late in
          let far : p < gap + 0 + rounds =
            omega (arith, gap-beyond w gap (slot_target s head + 1) k found.1 before) in
          h.1 p (omega arith) far inside
    ],
  )
    where
      moved : AtMostFrom (slot_floor s) (slot_target s head) w w'
      moved = loop-moved gap w w1 w' found h.0

  after_scan :
      (w : World) (found : Option ℕ) (w1 : World)
      → head < 2 ^ 63
      → Found slot (slot_floor s) (slot_target s head + 1) w found w1
      → Post (Passed w) (Failed w) (slots_from s (slot_target s head) found w1)
  after_scan w none w1 small f =
      let same : w1.db.progress ≡ w.db.progress = ap (λ (d : Db). d.progress) f.0 in
      (
        refl,
        same-Marks w w1 same,
        λ k before p above below inside. rw same (f.1 p above (omega arith)),
      )
  after_scan w (some gap) w1 small f =
      Post-bind (ExactlyFrom (gap + 0) rounds (slot_target s head) w1) (Passed w) (Failed w)
        (slot_loop s rounds 0 gap (slot_target s head)) (λ _. pure false) w1
        (Post-weaken {R = ExactlyFrom (gap + 0) rounds (slot_target s head) w1} {F = Failed w}
          (slot_loop s rounds 0 gap (slot_target s head) w1) (λ _ w' h. h)
          (λ w' h. loop-moved gap w w1 w' f h)
          (slot_loop-Post s rounds 0 gap (slot_target s head) w1 (omega (arith, f.1.1))
            (omega (arith, target-le-head))))
        λ _ w' h. loop-Passed gap w w1 w' f h

  -- If the head is fetched, and it and the floor are below 2^63: nothing is enqueued; no slot
  -- outside of [floor, target] gets marked and no mark is lost, also where the pass fails; and
  -- where a pass returns and the first k slots from the floor were marked, those and the next
  -- `slots_per_pass` are marked afterwards, up to the target.
  pub run_slot_pass-Post :
      (w : World) (n : ℕ)
      → s.get_head w.calls ≡ (ok head, n)
      → head < 2 ^ 63
      → slot_floor s < 2 ^ 63
      → Post (Passed w) (Failed w) (run_slot_pass s w)
  unfolding run_slot_pass fetch first_unindexed_slot
  run_slot_pass-Post w n e small low =
      rw e (elim (Bool-cases (ltb (slot_target s head) (slot_floor s))) [
        | inl over ↦ rw over (
          refl,
          same-Marks w (at n w.db) refl,
          λ k before p above below in_range.
              let h : slot_target s head < slot_floor s = ltb→lt _ _ over in absurd (omega arith),
        )
        | inr inside ↦ rw inside (
            Post-bind (Found slot (slot_floor s) (slot_target s head + 1) (at n w.db)) (Passed w)
              (Failed w) (first_unindexed s.repo slot (slot_floor s) (slot_target s head))
              (slots_from s (slot_target s head)) (at n w.db)
              (Post-weaken {R = Found slot (slot_floor s) (slot_target s head + 1) (at n w.db)}
                {F = Failed w}
                (first_unindexed s.repo slot (slot_floor s) (slot_target s head) (at n w.db))
                (λ o w' h. h) (λ w' same. same-Marks w w' (ap (λ (d : Db). d.progress) same))
                (first_unindexed-Found s.repo slot (slot_floor s) (slot_target s head) (at n w.db)
                  low))
              λ found w1 h. after_scan w found w1 small h)
      ])
