-- ===== src/Backfill/Below.antt =====
-- What the passes do to slots below the floor of the slot pass.
use pauli.Common.{ℕ, ◌^◌, ◌<◌, ◌≡◌, refl, sym, ◌∙◌, false, Bool-cases, inl, inr, arith}
use pauli.Exec.{Result, ok, err}
use pauli.Exec.Post.{Post-weaken, IfOk, state-Post}
use pauli.Storage.{slot, World, Db}
use pauli.Storage.Progress.{marked}
use pauli.Storage.Progress.Marks.{Marks}
use pauli.Backfill.{run_slot_pass, slot_floor, SlotPass}
use pauli.Backfill.SlotLoop.{Within}
use pauli.Backfill.Slots.{Passed, Failed, run_slot_pass-Post}
use pauli.Indexing.{fetch}

abbrev pub Unmarked : ℕ → Db → Type 0
Unmarked p d = marked slot p d.progress ≡ false

-- A slot below the range of the marks that are added stays unmarked.
Marks-Unmarked :
    (lo hi p : ℕ) (w w' : World)
    → p < lo
    → Marks (Within slot lo hi) w w'
    → Unmarked p w.db
    → Unmarked p w'.db
Marks-Unmarked lo hi p w w' below m h = elim (Bool-cases (marked slot p w'.db.progress)) [
  | inl now ↦ elim (m.adds slot p now) [
    | inl before ↦ absurd (cc (sym before ∙ h))
    | inr new ↦ absurd (omega (arith, new.1))
  ]
  | inr still ↦ still
]

-- The heads that the node reports are less than 2^63.
abbrev pub SmallHeads : SlotPass → Type 0
SmallHeads s = (n : ℕ) → IfOk (λ head _. head < 2 ^ 63) (s.get_head n)

module _ (s : SlotPass) (p : ℕ) (below : p < slot_floor s) (low : slot_floor s < 2 ^ 63)
    (small : SmallHeads s) where
  fetched :
      (w : World) (x : Result ℕ × ℕ)
      → s.get_head w.calls ≡ x
      → IfOk (λ head _. head < 2 ^ 63) x
      → Unmarked p w.db
      → Unmarked p (run_slot_pass s w).1.db
  unfolding run_slot_pass fetch
  fetched w (err e, n) got fits h = rw got h
  fetched w (ok head, n) got fits h =
      state-Post (λ w'. Unmarked p w'.db) (run_slot_pass s w)
        (Post-weaken {Q = Passed s head w} {R = λ _ w'. Unmarked p w'.db} {E = Failed s head w}
          {F = λ w'. Unmarked p w'.db} (run_slot_pass s w)
          (λ b w' k. Marks-Unmarked _ _ p w w' below k.1 h)
          (λ w' k. Marks-Unmarked _ _ p w w' below k h)
          (run_slot_pass-Post s head w n got fits low))

  -- A slot below the floor stays unmarked, whatever a slot pass meets.
  pub run_slot_pass-Unmarked : (w : World) → Unmarked p w.db → Unmarked p (run_slot_pass s w).1.db
  run_slot_pass-Unmarked w h = fetched w (s.get_head w.calls) refl (small w.calls) h
