-- ===== src/Backfill/Runner/Driver/Advances.antt =====
-- What one pass of each track adds to the stretch of positions that are marked from the floor on.
use pauli.Common.{
  ℕ, suc, ◌*◌, Option, none, some, ◌+◌, ◌-◌, ◌^◌, ◌≤◌, ◌<◌, ◌≡◌, Bool, true, false, refl, inl, inr,
  arith, ltb, ltb→lt, ltb→le, Bool-cases,
}
use pauli.Common.Int.{pos_part}
use pauli.Storage.Progress.Marks.{IsMarked}
use pauli.Exec.Post.{Post, Post-weaken, Post-and}
use pauli.Exec.Returns.{IsOk, IsOk-Post}
use pauli.Indexing.Epochs.{index_epoch_at_boundary}
use pauli.Indexing.Blocks.{index_block_at_slot}
use pauli.Backfill.Returns.{run_slot_pass-IsOk}
use pauli.Backfill.EpochReads.{run_epoch_pass-Marked}
use pauli.Backfill.EpochMarks.{Grows, epoch_indexer, run_epoch_pass-Grows}
use pauli.Exec.{ok}
use pauli.Storage.{slot, epoch, answered, Db, World}
use pauli.Storage.Progress.{marked}
use pauli.Backfill.{
  slot_floor, slot_target, SlotPass, EpochPass, epoch_floor, epoch_target, run_slot_pass,
  run_epoch_pass, block_indexer,
}
use pauli.Backfill.Slots.{Passed, Failed, run_slot_pass-Post}
use pauli.Backfill.Runner.{Runner, slot_step, epoch_step, floor_slot}

-- A head is reported, below 2^63, behind which the pass goes up to `last`.
abbrev pub Reports : SlotPass → ℕ → ℕ → Type 0
Reports s last n =
    (head : ℕ) × (m : ℕ) × (s.get_head n ≡ (ok head, m))
    × (head < 2 ^ 63)
    × (last ≤ slot_target s head)
    × (slot_target s head < 2 ^ 63)

-- A finalized epoch and a head are reported whose target is `last` or later.
abbrev pub EpochReports : EpochPass → ℕ → ℕ → Type 0
EpochReports s last n =
    (finalized : ℕ) × (head : ℕ) × (m : ℕ) × (n' : ℕ) × (s.client.finalized_epoch n
      ≡ (ok finalized, m))
    × (s.client.get_head_slot m ≡ (ok head, n'))
    × (last ≤ epoch_target s finalized head)
    × (epoch_target s finalized head < 2 ^ 63)

abbrev pub pass_size : Runner → ℕ
pass_size r = pos_part r.cfg.slots_per_pass

abbrev pub epoch_pass_size : Runner → ℕ
epoch_pass_size r = pos_part r.cfg.epochs_per_pass

module _ (r : Runner) (last : ℕ) where
  -- The first `m` slots from the floor of the slot pass are marked, up to `last`.
  abbrev pub SlotStretch : ℕ → Db → Type 0
  SlotStretch m db =
      (p : ℕ)
      → slot_floor (slot_step r) ≤ p
      → p < slot_floor (slot_step r) + m
      → p ≤ last
      → marked slot p db.progress ≡ true

  -- The same for the epochs from the floor of the epoch pass.
  abbrev pub EpochStretch : ℕ → Db → Type 0
  EpochStretch m db =
      (p : ℕ)
      → epoch_floor (epoch_step r) ≤ p
      → p < epoch_floor (epoch_step r) + m
      → p ≤ last
      → marked epoch p db.progress ≡ true

  grown :
      (m : ℕ) (head : ℕ) (w w' : World)
      → last ≤ slot_target (slot_step r) head
      → Passed (slot_step r) head w false w'
      → SlotStretch m w.db
      → SlotStretch (m + pass_size r) w'.db
  grown m head w w' reach h st p above below le =
      elim (Bool-cases (ltb (last + 1) (slot_floor (slot_step r) + m))) [
        | inl beyond ↦
            h.2 (last + 1 - slot_floor (slot_step r))
              (λ q lo hi.
                st q lo
                  (let k : last + 1 < slot_floor (slot_step r) + m = ltb→lt _ _ beyond in
                    omega arith)
                  (omega arith))
              p above (omega arith) (omega arith)
        | inr within ↦
            h.2 m
              (λ q lo hi. st q lo hi (
                let k : slot_floor (slot_step r) + m ≤ last + 1 = ltb→le _ _ within in omega arith))
              p above (omega arith) (omega arith)
      ]

  grown_epochs :
      (m : ℕ) (target : ℕ) (w : World) (b : Bool) (w' : World)
      → last ≤ target
      → Grows (epoch_step r) target w b w'
      → EpochStretch m w.db
      → EpochStretch (m + epoch_pass_size r) w'.db
  grown_epochs m target w b w' reach h st p above below le =
      elim (Bool-cases (ltb (last + 1) (epoch_floor (epoch_step r) + m))) [
        | inl beyond ↦
            h (last + 1 - epoch_floor (epoch_step r))
              (λ q lo hi.
                st q lo
                  (let k : last + 1 < epoch_floor (epoch_step r) + m = ltb→lt _ _ beyond in
                    omega arith)
                  (omega arith))
              p above (omega arith) (omega arith)
        | inr within ↦
            h m
              (λ q lo hi. st q lo hi (
                let k : epoch_floor (epoch_step r) + m ≤ last + 1 = ltb→le _ _ within in
                omega arith))
              p above (omega arith) (omega arith)
      ]

  module _ (live : (n : ℕ) → r.repo.fate n ≡ answered) where
    -- A slot pass returns, marks the next slots and loses no mark of an epoch.
    pub run_slot_pass-Stretch :
        ((p : ℕ) (w : World) → IsOk (index_block_at_slot (block_indexer (slot_step r)) p w))
        → ((n : ℕ) → Reports (slot_step r) last n)
        → slot_floor (slot_step r) < 2 ^ 63
        → (m : ℕ) (w : World) → SlotStretch m w.db
        → Post
            (λ _ w'.
              SlotStretch (m + pass_size r) w'.db
              × ((p : ℕ) → IsMarked w epoch p → IsMarked w' epoch p))
            (λ _. ⊥)
            (run_slot_pass (slot_step r) w)
    run_slot_pass-Stretch indexes heads low m w k =
        let (head, n, e, small, reach, below) = heads w.calls in
        Post-weaken {Q = Passed (slot_step r) head w} {E = λ _. ⊥} (run_slot_pass (slot_step r) w)
          (λ b w' h.
            (grown m head w w' reach (refl, h.1, h.2) k, λ p marks. h.1.keeps epoch p marks))
          (λ w' h. h)
          (IsOk-Post (Passed (slot_step r) head w) (Failed (slot_step r) head w)
            (run_slot_pass (slot_step r) w)
            (run_slot_pass-IsOk (slot_step r) live indexes w head n e below)
            (run_slot_pass-Post (slot_step r) head w n e small low))

    -- An epoch pass returns, marks the next epochs and loses no mark of a slot.
    pub run_epoch_pass-Stretch :
        ((e : ℕ) (w : World)
          → e < 2 ^ 63
          → Post
              (λ _ w'. IsMarked w' epoch e)
              (λ _. ⊥)
              (index_epoch_at_boundary (epoch_indexer (epoch_step r)) e w))
        → ((n : ℕ) → EpochReports (epoch_step r) last n)
        → epoch_floor (epoch_step r) < 2 ^ 63
        → (m : ℕ) (w : World) → EpochStretch m w.db
        → Post
            (λ _ w'.
              EpochStretch (m + epoch_pass_size r) w'.db
              × ((p : ℕ) → IsMarked w slot p → IsMarked w' slot p))
            (λ _. ⊥)
            (run_epoch_pass (epoch_step r) w)
    run_epoch_pass-Stretch indexes reports low m w k =
        let (finalized, head, n, n', f, e, reach, below) = reports w.calls in
        Post-and (λ _ w'. EpochStretch (m + epoch_pass_size r) w'.db) (λ _. ⊥)
          (λ w'. (p : ℕ) → IsMarked w slot p → IsMarked w' slot p) (run_epoch_pass (epoch_step r) w)
          (Post-weaken {Q = Grows (epoch_step r) (epoch_target (epoch_step r) finalized head) w}
            {E = λ _. ⊥} (run_epoch_pass (epoch_step r) w)
            (λ b w' h. grown_epochs m _ w b w' reach h k) (λ w' h. h)
            (run_epoch_pass-Grows (epoch_step r) live indexes finalized head n n' w f e below low))
          (λ p marks. (run_epoch_pass-Marked (epoch_step r) p).stays w marks)

-- The floor of the slot pass is the larger of the two start slots.
pub floor_le : (r : Runner) → floor_slot r ≤ slot_floor (slot_step r)
floor_le r = go r.opts.start_slot
  where
    go :
        (o : Option ℕ)
        → floor_slot (record r { opts = record r.opts { start_slot = o } })
          ≤ slot_floor (slot_step (record r { opts = record r.opts { start_slot = o } }))
    go none = omega arith
    go (some o) = ground arith

pub one_more : (n size : ℕ) → n * size + size ≡ suc n * size
one_more n size = omega arith
